-- ===== src/Tests/Groups.antt =====
-- A device creates a group, adds a member and sends.
use mercury_messaging.Base.{
  ℕ, ◌<◌, ◌≡◌, ◌↔◌, ◌⊎◌, refl, ap, List, [], ◌∷◌, some, Bool, true, false, length, done, ok,
}
use mercury_messaging.Order.{nat_ord, list_ord}
use mercury_messaging.HashMap
use mercury_messaging.HashMap.Bytes.{bytes_eq}
use mercury_messaging.MessageLog.{Bytes}
use mercury_messaging.Crypto.Step
use mercury_messaging.Crypto.Manager
use mercury_messaging.Crypto.Manager.{
  MlsGroupManager, member_limit_reached, max_message_size, max_group_members, add_member,
}
use mercury_messaging.Crypto.Calls.{Call, create, add, seal, after, after_all}
use mercury_messaging.Crypto.Keyed.{IsKeyed, after_all-IsKeyed}
use mercury_messaging.Nif.Mls.{MlsManagerResource, mls_encrypt, mls_encrypt-poisoned}
use mercury_messaging.Sdk.Member.{unpack, pack, to_be_bytes}
use mercury_messaging.Sdk.Manager as SdkManager
use mercury_messaging.Sdk.Manager.{MlsManager, unpack-add_member}
use mercury_messaging.Tests.Crates.{mls_crates, mls_crates-KeepsGroupId}

abbrev room : Bytes
room = 114 ∷ []

abbrev other_room : Bytes
other_room = 115 ∷ []

abbrev kp : Bytes
kp = 7 ∷ []

-- A manager with these groups, after `uses` uses of its provider.
abbrev manager : ℕ → List (Bytes × (Bytes × ℕ)) → MlsGroupManager mls_crates
manager uses groups = record {
  provider = uses;
  credential_with_key = 9 ∷ [];
  signer = 4;
  groups = groups;
}

abbrev calls : List Call
calls = create room ∷ add room kp ∷ seal room (1 ∷ []) ∷ []

calls_run : after_all mls_crates calls (manager 1 []) ≡ done (manager 3 ((room, (room, 2)) ∷ []))
unfolding after_all after Manager.create_group Manager.add_member Manager.add_member_to
    Manager.add_key_package Manager.encrypt Manager.encrypt_in HashMap.get HashMap.upsert list_ord
    nat_ord Step.◌>>=◌ Step.call Step.from_result Step.pure
calls_run = refl

empty-IsKeyed : IsKeyed mls_crates (manager 1 [])
unfolding HashMap.get
empty-IsKeyed id g h = cc

after_all-IsKeyed_example : IsKeyed mls_crates (manager 3 ((room, (room, 2)) ∷ []))
after_all-IsKeyed_example =
    after_all-IsKeyed mls_crates mls_crates-KeepsGroupId calls (manager 1 [])
      (manager 3 ((room, (room, 2)) ∷ [])) empty-IsKeyed calls_run

abbrev two_rooms : MlsGroupManager mls_crates
two_rooms = manager 3 ((room, (room, 1)) ∷ (other_room, (other_room, 1)) ∷ [])

abbrev added : MlsGroupManager mls_crates
added = manager 4 ((room, (room, 2)) ∷ (other_room, (other_room, 1)) ∷ [])

add_run : add_member mls_crates room kp two_rooms ≡ (added, ok (kp, room))
unfolding Manager.add_member Manager.add_member_to Manager.add_key_package HashMap.get
    HashMap.upsert list_ord nat_ord Step.◌>>=◌ Step.call Step.from_result Step.pure
add_run = refl

after_run : after mls_crates (add room kp) two_rooms ≡ done added
unfolding after
after_run = ap (λ r. done r.0) add_run

abbrev full : MlsGroupManager mls_crates
full = manager 3 ((room, (room, 1000)) ∷ [])

full_read : HashMap.get room full.groups ≡ some (room, 1000)
unfolding HashMap.get list_ord nat_ord
full_read = refl

abbrev resource : Bool → MlsManagerResource mls_crates
resource poisoned = record { poisoned = poisoned; manager = two_rooms }

mls_encrypt-poisoned_example :
    ((mls_encrypt mls_crates (resource false) room kp).0.poisoned ≡ true)
    ↔ ((false ≡ true) ⊎ (max_message_size < length kp))
mls_encrypt-poisoned_example = mls_encrypt-poisoned mls_crates (resource false) room kp

abbrev sdk : MlsGroupManager mls_crates → MlsManager mls_crates
sdk m = record { inner = m }

abbrev packed : Bytes
packed = 0 ∷ 0 ∷ 0 ∷ 1 ∷ 7 ∷ 114 ∷ []

sdk_run : SdkManager.add_member mls_crates room kp (sdk two_rooms) ≡ done (sdk added, ok packed)
unfolding SdkManager.add_member pack to_be_bytes
sdk_run = rw add_run refl

unpack-add_member_example : (added ≡ added) × (unpack packed ≡ some (kp, room))
unpack-add_member_example =
    unpack-add_member mls_crates room kp kp room packed (sdk two_rooms) (sdk added) added add_run
      sdk_run
