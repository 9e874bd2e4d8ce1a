-- ===== src/Tools/Examples.antt =====
-- The reverse tools plane (runtime/src/tools.rs) at concrete states, over a small JSON.
use openab_pty.Base.{
  ℕ, zero, suc, ◌<◌, ◌≡◌, refl, ap, ◌↔◌, Bool, true, false, Option, none, some, List, [], ◌∷◌,
  arith, if◌then◌else◌, eq_bytes, eq_bytes_iff, lookup, insert, codes, get_elem?,
}
use openab_pty.Crate.{SessionName, ok}
use openab_pty.Audit.{hex}
use openab_pty.Tools.{
  Json, Message, text, Attached, fresh, is_some, try_send, close, fail_pending, not_attached,
}
use openab_pty.Tools.Hub
use openab_pty.Tools.Mux.{
  Operation, Mux, register_call, send_call, mac_frame, close_socket, writer_takes, step, run,
}
use openab_pty.Tools.Mux.Routing.{Refines, run-Refines}
use openab_pty.Tools.Mux.Closing.{has_close, close_full}
use openab_pty.Tools.Hub.{
  new, mint_with_ttl, verify, attached_for, sweep, install, log_events, issue_loopback_key,
  check_loopback_key,
}
use openab_pty.Tools.Hub.State.{update}
use openab_pty.Tools.Hub.Runs.{
  HubOperation, installs, mints, hub_run, hub_step, hub_run-attached_for,
}
use openab_pty.Tools.Hub.Keys.{verify-mint_with_ttl}
use openab_pty.Tools.Hub.Sweep.{Forgotten, sweep-Forgotten}
use openab_pty.Tools.Loopback.{failed, handle_loopback}
use openab_pty.Tools.Loopback.Answers.{JsonLaws, handle_loopback-HasId}

mutual
  data Doc : Type 0 where
    null : Doc
    bool : Bool → Doc
    number negative : ℕ → Doc
    string : List ℕ → Doc
    array : Docs → Doc
    object : Fields → Doc

  data Docs : Type 0 where
    no_docs : Docs
    doc : Doc → Docs → Docs

  data Fields : Type 0 where
    no_fields : Fields
    field : List ℕ → Doc → Fields → Fields

fields_of : List (List ℕ × Doc) → Fields
fields_of [] = no_fields
fields_of ((key, v) ∷ rest) = field key v (fields_of rest)

docs_of : List Doc → Docs
docs_of [] = no_docs
docs_of (v ∷ rest) = doc v (docs_of rest)

list_of : Docs → List Doc
list_of no_docs = []
list_of (doc v rest) = v ∷ list_of rest

find : List ℕ → Fields → Option Doc
find key no_fields = none
find key (field k v rest) = if eq_bytes k key then some v else find key rest

put : List ℕ → Doc → Fields → Fields
put key x no_fields = field key x no_fields
put key x (field k v rest) =
    let later = put key x rest in if eq_bytes k key then field key x rest else field k v later

get_of : Doc → List ℕ → Option Doc
unfolding find
get_of (object fields) key = find key fields
get_of _ key = none

insert_of : Doc → List ℕ → Doc → Doc
unfolding put
insert_of (object fields) key x = object (put key x fields)
insert_of v key x = v

as_u64_of : Doc → Option ℕ
as_u64_of (number n) = some n
as_u64_of v = none

as_str_of : Doc → Option (List ℕ)
as_str_of (string s) = some s
as_str_of v = none

as_array_of : Doc → Option (List Doc)
unfolding list_of
as_array_of (array vs) = some (list_of vs)
as_array_of v = none

abbrev docs : Json Doc
docs = record {
  get = get_of;
  as_u64 = as_u64_of;
  as_str = as_str_of;
  as_array = as_array_of;
  insert = insert_of;
  null = Doc.null;
  bool = Doc.bool;
  number = Doc.number;
  negative = Doc.negative;
  text = Doc.string;
  array = λ vs. Doc.array (docs_of vs);
  object = λ fields. Doc.object (fields_of fields);
}

find-fields_of :
    (fields : List (List ℕ × Doc)) (key : List ℕ) → find key (fields_of fields) ≡ lookup key fields
unfolding find fields_of lookup
find-fields_of [] key = refl
find-fields_of ((k, v) ∷ rest) key =
    ap (λ o. if eq_bytes k key then some v else o) (find-fields_of rest key)

find-put :
    (fields : Fields) (key : List ℕ) (x : Doc) (k : List ℕ)
    → find k (put key x fields) ≡ (if eq_bytes key k then some x else find k fields)
unfolding find put
find-put no_fields key x k = refl
find-put (field j v rest) key x k =
    ground (arith, find-put rest key x k, eq_bytes_iff j key, eq_bytes_iff j k, eq_bytes_iff key k)

contrary : false ≡ true → ⊥
contrary h = cc

get-insert_lem :
    (v : Doc) (key : List ℕ) (x : Doc) (other : List ℕ)
    → is_some (get_of v other) ≡ true
    → (k : List ℕ) → get_of (insert_of v key x) k ≡ (if eq_bytes key k then some x else get_of v k)
unfolding get_of insert_of is_some
get-insert_lem (object fields) key x other h k = find-put fields key x k
get-insert_lem Doc.null key x other h k = absurd (contrary h)
get-insert_lem (Doc.bool b) key x other h k = absurd (contrary h)
get-insert_lem (Doc.number n) key x other h k = absurd (contrary h)
get-insert_lem (Doc.negative n) key x other h k = absurd (contrary h)
get-insert_lem (Doc.string s) key x other h k = absurd (contrary h)
get-insert_lem (Doc.array vs) key x other h k = absurd (contrary h)

docs_laws : JsonLaws docs
unfolding get_of
docs_laws = record { get-object = find-fields_of; get-insert = get-insert_lem }

abbrev build : SessionName
build = codes "build"

abbrev peer : List ℕ
peer = codes "100.64.0.7"

-- A digest that tells byte strings apart, for the tests.
abbrev plain : List ℕ → List ℕ
plain bytes = bytes

abbrev request : Doc
request = object (field (codes "id") (number 7) no_fields)

abbrev reply : ℕ → Doc
reply id = object (field (codes "id") (number id) (field (codes "result") Doc.null no_fields))

-- Two callers with one id of their own, answered in the other order.
abbrev two_calls : List (Operation Doc)
two_calls =
    register_call 1 request
    ∷ register_call 2 request
    ∷ send_call 1 request
    ∷ mac_frame (reply 2)
    ∷ mac_frame (reply 1)
    ∷ []

run-Refines_example :
    Refines docs (run docs two_calls (record { log = []; attached = fresh build peer 5 }))
run-Refines_example = run-Refines docs build peer 5 two_calls (omega arith)

abbrev two_macs : List (HubOperation Doc)
two_macs = installs build peer 5 ∷ mints build 60 6 (some (1 ∷ [])) ∷ installs build peer 9 ∷ []

abbrev second_mac : Attached Doc
second_mac = fresh build peer 9

hub_run-attached_for_example : attached_for (hub_run docs plain two_macs (new 3600)) build ≡ some 1
unfolding fresh new hub_run install log_events mint_with_ttl Hub.close_socket lookup eq_bytes update
    close try_send fail_pending insert hub_step
hub_run-attached_for_example =
    hub_run-attached_for docs plain 3600 two_macs 1 second_mac still_there refl
  where
    still_there : get_elem? (hub_run docs plain two_macs (new 3600)).sockets 1 ≡ some second_mac
    still_there = refl

verify-mint_with_ttl_example :
    ((verify plain build
        (codes "00")
        peer
        10
        (mint_with_ttl plain build 60 6 (some (0 ∷ [])) (new {Value = Doc} 3600)).1).0
      ≡ ok tt)
    ↔ ((10 < 66) × (codes "00" ≡ hex (0 ∷ [])))
unfolding new
verify-mint_with_ttl_example =
    verify-mint_with_ttl plain build 60 6 (0 ∷ []) (new {Value = Doc} 3600) (omega arith)
      (omega arith) (codes "00") peer 10

sweep-Forgotten_example :
    Forgotten build (sweep plain (λ name. false) 20 (hub_run docs plain two_macs (new 3600)))
sweep-Forgotten_example =
    sweep-Forgotten plain (λ name. false) 20 (hub_run docs plain two_macs (new 3600)) build refl

handle_loopback-HasId_example :
    (response : Doc) × (handle_loopback docs
        (λ v. [])
        (codes "1")
        (new 3600)
        build
        request
        (failed not_attached)
        10
      ≡ some response)
    × (get_of response (codes "id") ≡ some (number 7))
unfolding get_of find eq_bytes
handle_loopback-HasId_example =
    handle_loopback-HasId docs docs_laws (λ v. []) (codes "1") (new 3600) build request (number 7)
      (failed not_attached) 10 asked tt
  where
    asked : get_of request (codes "id") ≡ some (number 7)
    asked = refl

abbrev texts : ℕ → List (Message Doc)
texts zero = []
texts (suc n) = text Doc.null ∷ texts n

abbrev full : Mux Doc
full = record { log = []; attached = record (fresh build peer 5) { to_mac = texts 64 } }

close_full_example :
    ((run docs (writer_takes ∷ []) (step docs (close_socket 4010) full)).attached.closed ≡ true)
    × (has_close (run docs (writer_takes ∷ []) (step docs (close_socket 4010) full)).attached.to_mac
        ≡ false)
unfolding fresh
close_full_example = close_full docs 4010 full (writer_takes ∷ []) refl (omega arith) refl
