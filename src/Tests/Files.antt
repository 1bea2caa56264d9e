-- ===== src/Tests/Files.antt =====
-- The theorems of File at a small disk.
use peerstore.Base.{
  ℕ, ◌≡◌, ◌≢◌, refl, sym, ap, ◌∙◌, ◌<◌, arith, Option, none, some, List, [], ◌∷◌, ◌++◌, Bytes,
  length, replicate, bytes_eq, bytes_beq_iff, inl, inr,
}
use peerstore.Base.Dict.{lookup, insert, lookup-insert_self}
use peerstore.Models.Node.{Identifier}
use peerstore.Protocol.Message.{SharedSecret, zero_header, Request, post_file_method}
use peerstore.File.Storage.{no_faults}
use peerstore.File.Owners.{
  IdSecret, AllFit, owners_of_new, as_pairs, new_header, read_owners, secret_of, find_secret,
}
use peerstore.File.Owners.RoundTrip.{read_owners-new_header}
use peerstore.File.Owners.Holds.{Owns}
use peerstore.File.Handlers.{
  Files, respond, refused, answer, get_file_handler, post_file_handler, delete_file_handler,
}
use peerstore.File.Handlers.Access.{stranger_refused}
use peerstore.File.Handlers.Ownership.{
  IsOwner, Reach, here, next, post_file, HasRoom, owner_still_served,
}

abbrev pub alice : Identifier
alice = replicate 20 1

abbrev pub bob : Identifier
bob = replicate 20 2

abbrev pub file_key : Identifier
file_key = replicate 20 7

abbrev other_key : Identifier
other_key = replicate 20 8

abbrev pub secret : Bytes
secret = replicate 256 9

abbrev pub content : Bytes
content = new_header alice secret [] ++ 104 ∷ 105 ∷ []

abbrev pub empty_disk : Files
empty_disk = record { disk = []; clock = 3 }

abbrev pub stored_disk : Files
stored_disk = record { disk = insert file_key content []; clock = 3 }

abbrev pub request_of : Identifier → Bytes → List SharedSecret → Bytes → Request
request_of from s shared body = record {
  header = record zero_header {
    key = file_key;
    from = from;
    secret = s;
    shared_with = shared;
    clock = 5;
  };
  method = post_file_method;
  body = body;
}

abbrev pub for_bob : List SharedSecret
for_bob = record { id = bob; secret = secret } ∷ []

abbrev first : Bytes → ℕ
first [] = 0
first (b ∷ bs) = b

apart : (bs cs : Bytes) → first bs < first cs → bs ≢ cs
apart bs cs lt e = let same : first bs ≡ first cs = ap first e in absurd (omega arith)

pub owners_fit : AllFit (owners_of_new alice secret [])
unfolding as_pairs
owners_fit = ((refl, refl), tt)

shared_fit : AllFit (owners_of_new alice secret for_bob)
unfolding as_pairs
shared_fit = ((refl, refl), ((refl, refl), tt))

pub content-parsed : read_owners content ≡ some (owners_of_new alice secret [], 104 ∷ 105 ∷ [])
content-parsed = read_owners-new_header alice secret [] (104 ∷ 105 ∷ []) owners_fit (omega arith)

pub nothing_stored : lookup file_key empty_disk.disk ≡ none
unfolding lookup
nothing_stored = refl

pub content-stored : lookup file_key stored_disk.disk ≡ some content
content-stored = lookup-insert_self file_key content []

pub alice_secret : secret_of alice (owners_of_new alice secret []) ≡ some secret
unfolding find_secret as_pairs
alice_secret = rw ((bytes_beq_iff alice alice).1 refl)

pub bob_stranger : ¬ (Owns bob (owners_of_new alice secret []))
unfolding as_pairs
bob_stranger (inl e) = absurd (apart alice bob (omega arith) e)
bob_stranger (inr h) = h

stranger_refused_example :
    (get_file_handler no_faults (request_of bob [] [] []) stored_disk ≡ (refused, stored_disk))
    × ((post_file_handler no_faults (request_of bob [] [] []) stored_disk).0 ≡ refused)
    × ((post_file_handler no_faults (request_of bob [] [] []) stored_disk).1.disk
        ≡ stored_disk.disk)
    × ((delete_file_handler no_faults (request_of bob [] [] []) stored_disk).0 ≡ refused)
    × ((delete_file_handler no_faults (request_of bob [] [] []) stored_disk).1.disk
        ≡ stored_disk.disk)
stranger_refused_example =
    stranger_refused no_faults (request_of bob [] [] []) stored_disk content
      (owners_of_new alice secret []) (104 ∷ 105 ∷ []) refl content-stored content-parsed
      bob_stranger

keys_differ : file_key ≢ other_key
keys_differ h = absurd (apart file_key other_key (omega arith) h)

alice_owns : IsOwner alice file_key stored_disk
alice_owns = record {
  content = content;
  owners = owners_of_new alice secret [];
  body = 104 ∷ 105 ∷ [];
  stored = content-stored;
  parsed = content-parsed;
  named = inl refl;
}

abbrev count_owners : Option (List IdSecret × Bytes) → ℕ
count_owners none = 0
count_owners (some (owners, body)) = length owners

enough_room : HasRoom alice file_key (request_of bob [] [] []) stored_disk
unfolding as_pairs
enough_room c owners body stored parsed =
    let same : some c ≡ some content = sym stored ∙ content-stored in
    let alike : c ≡ content = cc in
    let read_as = ap count_owners (sym parsed ∙ ap read_owners alike ∙ content-parsed) in
    let one : length owners ≡ 1 = read_as in omega arith

bob_posts :
    Reach alice file_key stored_disk
      (post_file_handler no_faults (request_of bob [] [] []) stored_disk).1
unfolding as_pairs
bob_posts = next here (post_file (request_of bob [] [] []) stored_disk tt enough_room)

owner_still_served_example :
    (s : Bytes) × (body : Bytes) × (get_file_handler no_faults
        (request_of alice [] [] [])
        (post_file_handler no_faults (request_of bob [] [] []) stored_disk).1
      ≡ (
        respond (answer 0 s body),
        (post_file_handler no_faults (request_of bob [] [] []) stored_disk).1,
      ))
owner_still_served_example =
    owner_still_served alice file_key (request_of alice [] [] []) alice_owns bob_posts refl refl

-- 255 users
abbrev pub crowd : List SharedSecret
crowd = replicate 255 (record { id = bob; secret = secret })
