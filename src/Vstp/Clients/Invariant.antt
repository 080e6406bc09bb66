-- ===== src/Vstp/Clients/Invariant.antt =====
-- The two maps of the clients agree, whatever the clients do.
use vss.DynamicVar.RoundTrip.{itoa-ne-nil}
use vss.Prelude.{
  ℕ, Bytes, List, [], ◌∷◌, ◌++◌, ◌≡◌, ◌≢◌, ◌⊎◌, ◌↔◌, refl, subst, true, false, str_eq, str_eq_iff,
  ◌==◌, if◌then◌else◌, is_nil, Option, none, some, Option-cases, inl, inr, arith,
}
use vss.Prelude.Int.{ℤ}
use vss.Prelude.Dict.{find, discard, find-store, find-discard}
use vss.DynamicVar.{itoa}
use vss.Vstp.Clients.{
  Clients, by_id, by_tcp_cli, register, new_id, on_client_connect, on_client_disconnect, id_of,
  change_id, subscriber, on_data,
}

pub ==_iff : (a b : ℕ) → (a == b ≡ true) ↔ (a ≡ b)
==_iff a b = (λ h. ground arith, λ h. ground arith)

pub none-ne-some : {A : Type 0} {a : A} → none ≢ some a
none-ne-some h = cc

second_of :
    {A B : Type 0} {a b : A} {v w : B}
    → ◌≡◌ {A = Option (A × B)} (some (a, v)) (some (b, w))
    → v ≡ w
second_of h = cc

-- An id that leads to a connection is the id of that connection, and no connection has an empty id.
pub record IsConsistent (v : Clients) : Type 0 where
  pub agree : (id : Bytes) (cli : ℕ) → by_id id v ≡ some cli → by_tcp_cli cli v ≡ some id
  pub named : (cli : ℕ) → by_tcp_cli cli v ≢ some []

by_id-register :
    (id j : Bytes) (cli : ℕ) (v : Clients)
    → by_id j (register id cli v) ≡ (if str_eq id j then some cli else by_id j v)
unfolding register
by_id-register id j cli v = find-store str_eq str_eq_iff id j cli v.clients_by_id

pub by_tcp_cli-register :
    (id : Bytes) (cli c : ℕ) (v : Clients)
    → by_tcp_cli c (register id cli v) ≡ (if cli == c then some id else by_tcp_cli c v)
unfolding register
by_tcp_cli-register id cli c v = find-store ◌==◌ ==_iff cli c id v.clients_by_tcp_cli

-- A connection that no id leads to may be registered under any id.
register-IsConsistent :
    (id : Bytes) (cli : ℕ) (v : Clients)
    → IsConsistent v
    → id ≢ []
    → ((j : Bytes) → by_id j v ≢ some cli)
    → IsConsistent (register id cli v)
register-IsConsistent id cli v ok named fresh = record {
  agree = λ j c h.
      let h' = rw by_id-register at h in
      ground (arith, by_tcp_cli-register id cli c v, str_eq_iff id j, ok.agree j c, fresh j);
  named = λ c h. let h' = rw by_tcp_cli-register at h in ground (arith, ok.named c);
}

-- Without its id in clientsById no id leads to a connection.
pub by_id-discard :
    (id j : Bytes) (v : Clients)
    → find str_eq j (discard str_eq id v.clients_by_id) ≡ (if str_eq id j then none else by_id j v)
by_id-discard id j v = find-discard str_eq str_eq_iff id j v.clients_by_id

no_id_left :
    (cli : ℕ) (id j : Bytes) (v : Clients)
    → IsConsistent v
    → by_tcp_cli cli v ≡ some id
    → find str_eq j (discard str_eq id v.clients_by_id) ≢ some cli
no_id_left cli id j v ok h k =
    let k' = rw (by_id-discard id j v) at k in ground (arith, str_eq_iff id j, ok.agree j cli)

no_id_of_unknown :
    (cli : ℕ) (j : Bytes) (v : Clients)
    → IsConsistent v
    → by_tcp_cli cli v ≡ none
    → by_id j v ≢ some cli
no_id_of_unknown cli j v ok h k = cc (ok.agree j cli k)

discard-IsConsistent :
    (id : Bytes) (v : Clients)
    → IsConsistent v
    → IsConsistent (record v { clients_by_id = discard str_eq id v.clients_by_id })
discard-IsConsistent id v ok = record {
  agree = λ j c h. let h' = rw (by_id-discard id j v) at h in ground (arith, ok.agree j c);
  named = ok.named;
}

-- A connection that no id leads to may be forgotten.
forget-IsConsistent :
    (cli : ℕ) (v : Clients)
    → IsConsistent v
    → ((j : Bytes) → by_id j v ≢ some cli)
    → IsConsistent (record v {
      clients_by_tcp_cli = discard ◌==◌ cli v.clients_by_tcp_cli;
      incoming_data_buffer = discard ◌==◌ cli v.incoming_data_buffer;
    })
forget-IsConsistent cli v ok apart = record {
  agree = λ j c h.
      rw (find-discard ◌==◌ ==_iff cli c v.clients_by_tcp_cli)
        (ground (arith, ok.agree j c, apart j));
  named = λ c h.
      let h' = rw (find-discard ◌==◌ ==_iff cli c v.clients_by_tcp_cli) at h in
      ground (arith, ok.named c);
}

new_id_ne_nil : (fun_name : Bytes) (v : Clients) → new_id fun_name v ≢ []
new_id_ne_nil fun_name v h = go (itoa v.cli_id_count) h
  where
    go : (s : Bytes) → s ++ b'-' ∷ fun_name ≢ []
    go [] e = cc
    go (c ∷ s) e = cc

named_of :
    (o : Option Bytes)
    → o ≢ some []
    → (o ≡ none) ⊎ ((id : Bytes) × (o ≡ some id) × (is_nil id ≡ false))
named_of none h = inl refl
named_of (some []) h = absurd (h refl)
named_of (some (c ∷ id)) h = inr (c ∷ id, refl, refl)

pub connect-IsConsistent :
    (cli : ℕ) (fun_name : Bytes) (v : Clients)
    → by_tcp_cli cli v ≡ none
    → IsConsistent v
    → IsConsistent (on_client_connect cli fun_name v)
unfolding on_client_connect
connect-IsConsistent cli fun_name v new ok =
    let r =
      register-IsConsistent (new_id fun_name v) cli v ok (new_id_ne_nil fun_name v)
        (λ j. no_id_of_unknown cli j v ok new) in
    record { agree = r.agree; named = r.named }

pub disconnect-IsConsistent :
    (cli : ℕ) (v : Clients) → IsConsistent v → IsConsistent (on_client_disconnect cli v)
unfolding on_client_disconnect
disconnect-IsConsistent cli v ok = elim (Option-cases (by_tcp_cli cli v)) [
  | inl e ↦ elim (Option-cases (id_of cli v.clients_by_id)) [
    | inl s ↦ rw (e, s) (forget-IsConsistent cli v ok (λ j. no_id_of_unknown cli j v ok e))
    | inr (id, s) ↦
        let less = discard-IsConsistent id v ok in
        rw (e, s) (forget-IsConsistent cli _ less (λ j. no_id_of_unknown cli j _ less e))
  ]
  | inr (id, e) ↦
      rw e
        (forget-IsConsistent cli _ (discard-IsConsistent id v ok) (λ j. no_id_left cli id j v ok e))
]

pub change_id-IsConsistent :
    (cli : ℕ) (id : Bytes) (v : Clients)
    → id ≢ []
    → IsConsistent v
    → IsConsistent (change_id cli id v)
unfolding change_id
change_id-IsConsistent cli id v named ok = elim (named_of (by_tcp_cli cli v) (ok.named cli)) [
  | inl e ↦ rw e (register-IsConsistent id cli v ok named (λ j. no_id_of_unknown cli j v ok e))
  | inr (old, e, n) ↦
      rw (e, n)
        (register-IsConsistent id cli _ (discard-IsConsistent old v ok) named
          (λ j. no_id_left cli old j v ok e))
]

pub subscriber-IsConsistent :
    (cli : ℕ) (now : ℤ) (v : Clients) → IsConsistent v → IsConsistent (subscriber cli now v).1
unfolding subscriber
subscriber-IsConsistent cli now v ok = elim (named_of (by_tcp_cli cli v) (ok.named cli)) [
  | inl e ↦ rw e (
      register-IsConsistent (itoa now) cli v ok (itoa-ne-nil now)
        (λ j. no_id_of_unknown cli j v ok e))
  | inr (old, e, n) ↦ rw (e, n) ok
]

pub on_data-IsConsistent :
    (cli : ℕ) (bytes : Bytes) (lines : List Bytes) (v w : Clients)
    → on_data cli bytes v ≡ some (lines, w)
    → IsConsistent v
    → IsConsistent w
unfolding on_data
on_data-IsConsistent cli bytes lines v w h ok =
    elim (Option-cases (find ◌==◌ cli v.incoming_data_buffer)) [
      | inl e ↦ absurd (none-ne-some (rw e at h))
      | inr (buf, e) ↦
          subst IsConsistent (second_of (rw e at h)) (record { agree = ok.agree; named = ok.named })
    ]
