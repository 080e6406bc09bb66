-- ===== src/Http/Sockets/Pairing.antt =====
-- httpapi.go: `clients` and `connToID` belong together.
use vss.Prelude.{
  ℕ, Bytes, List, ◌≡◌, ◌≢◌, ◌⊎◌, refl, Bool, false, Option, none, some, Bool-cases, inl, inr, arith,
  str_eq, str_eq_iff, ◌==◌, if◌then◌else◌,
}
use vss.Prelude.Dict.{find, find-store, find-discard}
use vss.Vstp.Clients.Invariant.{==_iff}
use vss.Http.Nested.{Any, array}
use vss.Http.Sockets.{
  Sockets, no_sockets, client_conn, conn_id, check_alive, open_socket, close_socket, drop_dead,
  notify_client, changes_json, notify_conn, close_found,
}

client_conn-open_socket :
    (cid id : Bytes) (conn : ℕ) (s : Sockets)
    → client_conn id (open_socket cid conn s)
      ≡ (if str_eq cid id then some conn else client_conn id s)
unfolding open_socket
client_conn-open_socket cid id conn s = find-store str_eq str_eq_iff cid id conn s.clients

conn_id-open_socket :
    (cid : Bytes) (conn c : ℕ) (s : Sockets)
    → conn_id c (open_socket cid conn s) ≡ (if conn == c then some cid else conn_id c s)
unfolding open_socket
conn_id-open_socket cid conn c s = find-store ◌==◌ ==_iff conn c cid s.conn_to_id

client_conn-close_socket :
    (cid id : Bytes) (conn : ℕ) (s : Sockets)
    → client_conn id (close_socket cid conn s) ≡ (if str_eq cid id then none else client_conn id s)
unfolding close_socket
client_conn-close_socket cid id conn s = find-discard str_eq str_eq_iff cid id s.clients

conn_id-close_socket :
    (cid : Bytes) (conn c : ℕ) (s : Sockets)
    → conn_id c (close_socket cid conn s) ≡ (if conn == c then none else conn_id c s)
unfolding close_socket
conn_id-close_socket cid conn c s = find-discard ◌==◌ ==_iff conn c s.conn_to_id

-- A client's connection is known by the client's id.
abbrev pub IsPaired : Sockets → Type 0
IsPaired s = (cid : Bytes) (conn : ℕ) → client_conn cid s ≡ some conn → conn_id conn s ≡ some cid

open_socket-IsPaired :
    (cid : Bytes) (conn : ℕ) (s : Sockets)
    → IsPaired s
    → ((id : Bytes) → client_conn id s ≢ some conn)
    → IsPaired (open_socket cid conn s)
open_socket-IsPaired cid conn s ok fresh id c h =
    let h' = rw client_conn-open_socket at h in
    ground (arith, conn_id-open_socket cid conn c s, str_eq_iff cid id, ok id c, fresh id)

close_socket-IsPaired :
    (cid : Bytes) (conn : ℕ) (s : Sockets)
    → IsPaired s
    → ((id : Bytes) → client_conn id s ≡ some conn → id ≡ cid)
    → IsPaired (close_socket cid conn s)
close_socket-IsPaired cid conn s ok only id c h =
    let h' = rw client_conn-close_socket at h in
    ground (arith, conn_id-close_socket cid conn c s, str_eq_iff cid id, ok id c, only id)

-- A connection that is known by `cid`, or by no id, is that of no other client.
only_client :
    (cid : Bytes) (conn : ℕ) (s : Sockets)
    → IsPaired s
    → (conn_id conn s ≡ some cid) ⊎ (conn_id conn s ≡ none)
    → (id : Bytes) → client_conn id s ≡ some conn
    → id ≡ cid
only_client cid conn s ok (inl known) id h = let paired = ok id conn h in ground arith
only_client cid conn s ok (inr unknown) id h = let paired = ok id conn h in absurd (ground arith)

close_found-IsPaired :
    (o : Option Bytes) (conn : ℕ) (s : Sockets)
    → IsPaired s
    → conn_id conn s ≡ o
    → IsPaired (close_found o conn s)
close_found-IsPaired none conn s ok e = ok
close_found-IsPaired (some cid) conn s ok e =
    close_socket-IsPaired cid conn s ok (only_client cid conn s ok (inl e))

drop_dead-IsPaired : (conn : ℕ) (s : Sockets) → IsPaired s → IsPaired (drop_dead conn s)
unfolding drop_dead
drop_dead-IsPaired conn s ok = close_found-IsPaired (conn_id conn s) conn s ok refl

-- What the handlers and NotifyClient do: a connection that is opened is a new one, and one that is
-- closed has the id that it was opened with, or was dropped before.
pub data SocketStep : Sockets → Sockets → Type 0 where
  opened :
      (cid : Bytes) (conn : ℕ) (s : Sockets)
      → ((id : Bytes) → client_conn id s ≢ some conn)
      → SocketStep s (open_socket cid conn s)
  closed :
      (cid : Bytes) (conn : ℕ) (s : Sockets)
      → (conn_id conn s ≡ some cid) ⊎ (conn_id conn s ≡ none)
      → SocketStep s (close_socket cid conn s)
  dropped : (conn : ℕ) (s : Sockets) → SocketStep s (drop_dead conn s)

pub data IsReached : Sockets → Type 0 where
  started : IsReached no_sockets
  stepped : (s t : Sockets) → IsReached s → SocketStep s t → IsReached t

step-IsPaired : (s t : Sockets) → SocketStep s t → IsPaired s → IsPaired t
step-IsPaired _ _ (opened cid conn s fresh) ok = open_socket-IsPaired cid conn s ok fresh
step-IsPaired _ _ (closed cid conn s known) ok =
    close_socket-IsPaired cid conn s ok (only_client cid conn s ok known)
step-IsPaired _ _ (dropped conn s) ok = drop_dead-IsPaired conn s ok

reached-IsPaired : (s : Sockets) → IsReached s → IsPaired s
unfolding find
reached-IsPaired _ started = λ cid conn h. absurd (ground arith)
reached-IsPaired _ (stepped s t r step) = step-IsPaired s t step (reached-IsPaired s r)

no_conn : (cid : Bytes) (s : Sockets) → client_conn cid s ≡ none → check_alive cid s ≡ false
unfolding check_alive
no_conn cid s h = rw h refl

dropped_is_dead :
    (cid : Bytes) (conn : ℕ) (s : Sockets)
    → conn_id conn s ≡ some cid
    → check_alive cid (drop_dead conn s) ≡ false
unfolding drop_dead
dropped_is_dead cid conn s e = rw e (
    no_conn cid (close_socket cid conn s)
      (rw (client_conn-close_socket cid cid conn s) (ground (arith, str_eq_iff cid cid))))

notified_or_dead :
    (write : ℕ → Bytes → Bool) (cid : Bytes) (o : Option ℕ) (message : Bytes) (s : Sockets)
    → IsPaired s
    → client_conn cid s ≡ o
    → (notify_conn write o (some message) s).0 ≡ false
    → check_alive cid (notify_conn write o (some message) s).1 ≡ false
notified_or_dead write cid none message s ok e h = no_conn cid s e
notified_or_dead write cid (some conn) message s ok e h = elim (Bool-cases (write conn message)) [
  | inl sent ↦ absurd (ground arith)
  | inr lost ↦ rw lost (dropped_is_dead cid conn s (ok cid conn e))
]

-- After whatever the handlers did, a NotifyClient that no other step interrupts, whose changes can be encoded and that reports failure
-- leaves a client that CheckAlive calls dead.
pub check_alive-notify_client :
    (marshal : Any → Option Bytes) (write : ℕ → Bytes → Bool) (cid : Bytes)
    → (changes : List (Bytes × Bytes × Bytes)) (s : Sockets) (message : Bytes) → IsReached s
    → marshal (array (changes_json changes)) ≡ some message
    → (notify_client marshal write cid changes s).0 ≡ false
    → check_alive cid (notify_client marshal write cid changes s).1 ≡ false
unfolding notify_client
check_alive-notify_client marshal write cid changes s message r e h = rw e (
    notified_or_dead write cid (client_conn cid s) message s (reached-IsPaired s r) refl
      (rw e at h))
