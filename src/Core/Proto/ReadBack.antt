-- ===== src/Core/Proto/ReadBack.antt =====
-- What a written message reads as.
use mercury_messaging.Base.{◌≡◌, ◌≢◌, ap, ◌∙◌, ok, done}
use mercury_messaging.MessageLog.{Bytes}
use mercury_messaging.Core.Capnp.{Capnp, CapnpLaws, Schema, Field, field_code}
use mercury_messaging.Core.Proto.{
  ◌>>=◌, expect_written, read_root, encode_field, decode_field, two_fields,
}

module _ (c : Capnp) (laws : CapnpLaws c) where
  pub read_back :
      {s : Schema} (x : c.Builder s)
      → laws.IsReadable x
      → (w : c.Wire) × (expect_written c (c.write_message x) ≡ done w)
        × (r : c.Reader s) × (read_root c s w ≡ ok r)
        × laws.Shows r x
  read_back {s = s} x h =
      let (w, written) = laws.writes x in
      let (m, message, r, root, shows) = laws.reads x w written h in
      (w, ap (expect_written c) written, r, ap (λ z. z >>= c.get_root s) message ∙ root, shows)

  -- A field that was set last.
  pub read_last :
      {s : Schema} (f : Field) (b : Bytes) (x : c.Builder s) (r : c.Reader s)
      → laws.Shows r (c.set_data f b x)
      → c.get_data f r ≡ ok b
  read_last f b x r h = laws.shows_data f r _ h ∙ ap ok (laws.data_of_set f b x)

  -- A message with one field reads as that field.
  pub field_round_trip :
      (s : Schema) (f : Field) (b : Bytes)
      → laws.IsReadable (c.set_data f b (c.init_root s))
      → (w : c.Wire) × (encode_field c s f b ≡ done w) × (decode_field c s f w ≡ ok b)
  field_round_trip s f b h =
      let (w, written, r, root, shows) = read_back (c.set_data f b (c.init_root s)) h in
      (w, written, ap (λ z. z >>= c.get_data f) root ∙ read_last f b (c.init_root s) r shows)

  -- The two fields of a message with two.
  pub read_two :
      {s : Schema} (f g : Field) (a b : Bytes) (r : c.Reader s)
      → field_code f ≢ field_code g
      → laws.Shows r (two_fields c s f a g b)
      → (c.get_data f r ≡ ok a) × (c.get_data g r ≡ ok b)
  read_two {s = s} f g a b r n h = (
    laws.shows_data f r _ h
        ∙ ap ok (
            laws.data_of_other f g b (c.set_data f a (c.init_root s)) n
            ∙ laws.data_of_set f a (c.init_root s)),
    read_last g b (c.set_data f a (c.init_root s)) r h,
  )
