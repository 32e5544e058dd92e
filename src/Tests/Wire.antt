-- ===== src/Tests/Wire.antt =====
-- A concrete wire format, and messages sent over it.
use mercury_messaging.Base.{
  ℕ, ◌≡◌, ◌≢◌, refl, ap, sym, arith, List, [], ◌∷◌, ◌==◌, if◌then◌else◌, ok, done,
}
use mercury_messaging.MessageLog.{Bytes}
use mercury_messaging.Core.Capnp.{Capnp, CapnpLaws, field_code}
use mercury_messaging.Core.Proto.{mls_key_package_list_encode, mls_key_package_list_decode}
use mercury_messaging.Core.Proto.KeyPackages.{key_packages_round_trip}

-- A message is its fields by their codes; writing and reading do not change it.
record Content : Type 0 where
  data_at : ℕ → Bytes
  time : ℕ
  count : ℕ
  item : ℕ → Bytes

abbrev wire : Capnp
wire = record {
  Wire = Content;
  Error = Unit;
  Builder = λ s. Content;
  Message = Content;
  Reader = λ s. Content;
  ListReader = Content;
  init_root = λ s. record { data_at = λ f. []; time = 0; count = 0; item = λ i. [] };
  set_data = λ f b x. record x { data_at = λ g. if g == field_code f then b else x.data_at g };
  set_timestamp = λ t x. record x { time = t };
  init_key_packages = λ n x. record x { count = n };
  set_key_package = λ i b x. record x { item = λ j. if j == i then b else x.item j };
  write_message = λ x. ok x;
  read_message = λ w. ok w;
  get_root = λ s m. ok m;
  get_data = λ f r. ok (r.data_at (field_code f));
  get_timestamp = λ r. r.time;
  get_key_packages = λ r. ok r;
  list_len = λ l. l.count;
  list_get = λ i l. ok (l.item i);
}

if_same : (n : ℕ) (a b : Bytes) → (if n == n then a else b) ≡ a
if_same n a b = ground arith

if_other : (m n : ℕ) (a b : Bytes) → m ≢ n → (if m == n then a else b) ≡ b
if_other m n a b h = ground arith

abbrev wire_laws : CapnpLaws wire
wire_laws = record {
  data_of = λ f x. x.data_at (field_code f);
  timestamp_of = λ x. x.time;
  count_of = λ x. x.count;
  package_at = λ i x. x.item i;
  data_of_set = λ f b x. if_same (field_code f) b (x.data_at (field_code f));
  data_of_other =
      λ f g b x n. if_other (field_code f) (field_code g) b (x.data_at (field_code f)) n;
  data_of_timestamp = λ f t x. refl;
  timestamp_of_set = λ t x. refl;
  timestamp_of_data = λ f b x. refl;
  count_of_init = λ n x. refl;
  count_of_set = λ i b x. refl;
  package_at_set = λ i b x h. if_same i b (x.item i);
  package_at_other = λ i j b x n. if_other i j b (x.item i) n;
  writes = λ x. (x, refl);
  IsReadable = λ x. Unit;
  Shows = λ r x. r ≡ x;
  reads = λ x w e h. (x, sym e, x, refl, refl);
  shows_data = λ f r x h. ap (λ (z : Content). ok (z.data_at (field_code f))) h;
  shows_timestamp = λ r x h. ap (λ (z : Content). z.time) h;
  shows_packages = λ r x h.
      (r, refl, ap (λ (z : Content). z.count) h, λ i n. ap (λ (z : Content). ok (z.item i)) h);
}

abbrev content : Bytes
content = 104 ∷ 105 ∷ []

abbrev packages : List Bytes
packages = content ∷ (7 ∷ []) ∷ []

key_packages_round_trip_example :
    (w : Content) × (mls_key_package_list_encode wire packages ≡ done w)
    × (mls_key_package_list_decode wire w ≡ ok packages)
key_packages_round_trip_example = key_packages_round_trip wire wire_laws packages (omega arith) tt
