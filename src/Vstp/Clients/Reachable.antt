-- ===== src/Vstp/Clients/Reachable.antt =====
-- What the clients do in any order, and what holds in every state that this leads to.
use vss.Prelude.{
  ℕ, Bytes, List, [], ◌≡◌, ◌≢◌, refl, sym, ◌∙◌, false, str_eq_refl, ◌==◌, if◌then◌else◌, is_nil,
  none, some, Bool-cases, inl, inr, arith,
}
use vss.Prelude.Int.{ℤ}
use vss.Prelude.Dict.{find, find-discard}
use vss.Vstp.Clients.{
  Clients, no_clients, by_id, by_tcp_cli, on_client_connect, on_client_disconnect, change_id,
  id_or_empty, subscriber, on_data, check_alive,
}
use vss.Vstp.Clients.Invariant.{
  IsConsistent, connect-IsConsistent, disconnect-IsConsistent, change_id-IsConsistent,
  subscriber-IsConsistent, on_data-IsConsistent, none-ne-some, by_id-discard, by_tcp_cli-register,
  ==_iff,
}

-- What the server does, in any order that the network brings about. A connection that is new has no
-- id yet; an id that a client asks for is not empty.
pub data Step : Clients → Clients → Type 0 where
  connects :
      (cli : ℕ) (fun_name : Bytes) (v : Clients)
      → by_tcp_cli cli v ≡ none
      → Step v (on_client_connect cli fun_name v)
  disconnects : (cli : ℕ) (v : Clients) → Step v (on_client_disconnect cli v)
  changes_id :
      (cli : ℕ) (new_id : Bytes) (v : Clients) → new_id ≢ [] → Step v (change_id cli new_id v)
  subscribes : (cli : ℕ) (now : ℤ) (v : Clients) → Step v (subscriber cli now v).1
  brings_data :
      (cli : ℕ) (bytes : Bytes) (lines : List Bytes) (v w : Clients)
      → on_data cli bytes v ≡ some (lines, w)
      → Step v w

pub data Reachable : Clients → Type 0 where
  begins : Reachable no_clients
  goes_on : {v w : Clients} → Reachable v → Step v w → Reachable w

Step-IsConsistent : {v w : Clients} → Step v w → IsConsistent v → IsConsistent w
Step-IsConsistent (connects cli fun_name v new) ok = connect-IsConsistent cli fun_name v new ok
Step-IsConsistent (disconnects cli v) ok = disconnect-IsConsistent cli v ok
Step-IsConsistent (changes_id cli id v named) ok = change_id-IsConsistent cli id v named ok
Step-IsConsistent (subscribes cli now v) ok = subscriber-IsConsistent cli now v ok
Step-IsConsistent (brings_data cli bytes lines v w h) ok =
    on_data-IsConsistent cli bytes lines v w h ok

no_clients-IsConsistent : IsConsistent no_clients
unfolding find
no_clients-IsConsistent = record { agree = λ id cli h. cc; named = λ cli h. cc }

-- In every state that the server reaches an id leads to a connection only if it is the id that the
-- connection has, and no connection has an empty id.
pub Reachable-IsConsistent : (v : Clients) → Reachable v → IsConsistent v
Reachable-IsConsistent v r = go r
  where
    go : {w : Clients} → Reachable w → IsConsistent w
    go begins = no_clients-IsConsistent
    go (goes_on r s) = Step-IsConsistent s (go r)

by_tcp_cli-on_client_disconnect :
    (cli : ℕ) (v : Clients) → by_tcp_cli cli (on_client_disconnect cli v) ≡ none
unfolding on_client_disconnect
by_tcp_cli-on_client_disconnect cli v =
    rw (find-discard ◌==◌ ==_iff cli cli v.clients_by_tcp_cli) (ground arith)

-- After a connection is closed no id leads to it, so that nothing is sent to it any more.
pub by_id-on_client_disconnect :
    (cli : ℕ) (v : Clients)
    → Reachable v
    → (id : Bytes) → by_id id (on_client_disconnect cli v) ≢ some cli
by_id-on_client_disconnect cli v r id h =
    let ok = disconnect-IsConsistent cli v (Reachable-IsConsistent v r) in
    none-ne-some (sym (by_tcp_cli-on_client_disconnect cli v) ∙ ok.agree id cli h)

by_tcp_cli-change_id :
    (cli c : ℕ) (id : Bytes) (v : Clients)
    → by_tcp_cli c (change_id cli id v) ≡ (if cli == c then some id else by_tcp_cli c v)
unfolding change_id
by_tcp_cli-change_id cli c id v = elim (Bool-cases (is_nil (id_or_empty (by_tcp_cli cli v)))) [
  | inl e ↦ rw (e, by_tcp_cli-register id cli c) refl
  | inr e ↦ rw (e, by_tcp_cli-register id cli c) refl
]

-- A client that connects again under its id before its old connection is closed is lost when that
-- happens: the new connection keeps the id, and CheckAlive says of the id that it is not there.
pub check_alive-on_client_disconnect :
    (old new : ℕ) (id : Bytes) (v : Clients)
    → by_tcp_cli old v ≡ some id
    → new == old ≡ false
    → (check_alive id (on_client_disconnect old (change_id new id v)) ≡ false)
      × (by_tcp_cli new (on_client_disconnect old (change_id new id v)) ≡ some id)
check_alive-on_client_disconnect old new id v h apart =
    let kept : by_tcp_cli old (change_id new id v) ≡ some id =
      by_tcp_cli-change_id new old id v ∙ rw apart h in
    let moved : by_tcp_cli new (change_id new id v) ≡ some id =
      by_tcp_cli-change_id new new id v ∙ ground arith in
    (
      unfold check_alive on_client_disconnect in
          rw (kept, by_id-discard id id, str_eq_refl id) refl,
      unfold on_client_disconnect in rw (find-discard ◌==◌ ==_iff old new) (ground arith),
    )
