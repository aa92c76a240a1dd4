-- ===== src/Payload/RoundTrip.antt =====
-- What a receiver decodes is what the client encoded.
use thesis_b_cs_tu_berlin.Prelude.{ℕ, ◌+◌, ◌-◌, ◌≡◌, ap, arith}
use thesis_b_cs_tu_berlin.Memory.{le64}
use thesis_b_cs_tu_berlin.Memory.Words.{digits64}
use thesis_b_cs_tu_berlin.Payload.{Payload, decode, encode, IsWide}

encode-data : (p : Payload) (a : ℕ) → encode p (64 + a) ≡ p.payload_data a
unfolding encode
encode-data p a = ground (arith, sub_lem)
  where
    sub_lem : p.payload_data (64 + a - 64) ≡ p.payload_data a
    sub_lem = ap p.payload_data (omega arith)

module _ (p : Payload) (w : IsWide p) where
  first_words :
      (le64 (encode p) 0 ≡ p.client_uid)
      × (le64 (encode p) 8 ≡ p.uid)
      × (le64 (encode p) 16 ≡ p.type)
      × (le64 (encode p) 24 ≡ p.created_time)
  unfolding le64 encode
  first_words = (
    digits64 p.client_uid w.client_uid_fits,
    digits64 p.uid w.uid_fits,
    digits64 p.type w.type_fits,
    digits64 p.created_time w.created_time_fits,
  )

  last_words :
      (le64 (encode p) 32 ≡ p.ks_time_arrival_1)
      × (le64 (encode p) 40 ≡ p.ks_time_arrival_2)
      × (le64 (encode p) 48 ≡ p.us_time_arrival_1)
      × (le64 (encode p) 56 ≡ p.us_time_arrival_2)
  unfolding le64 encode
  last_words = (
    digits64 p.ks_time_arrival_1 w.ks_1_fits,
    digits64 p.ks_time_arrival_2 w.ks_2_fits,
    digits64 p.us_time_arrival_1 w.us_1_fits,
    digits64 p.us_time_arrival_2 w.us_2_fits,
  )

  -- A receiver that copies the bytes of a sent `struct Payload` into its own gets every field and
  -- every data byte back, if the eight words are below 2^64.
  pub decode-encode : decode (encode p) ≡ p
  unfolding decode
  decode-encode i = record {
    client_uid = first_words.0 i;
    uid = first_words.1 i;
    type = first_words.2 i;
    created_time = first_words.3 i;
    ks_time_arrival_1 = last_words.0 i;
    ks_time_arrival_2 = last_words.1 i;
    us_time_arrival_1 = last_words.2 i;
    us_time_arrival_2 = last_words.3 i;
    payload_data = λ a. encode-data p a i;
  }
