-- ===== src/Http/Handlers/Answers.antt =====
-- httpapi.go: what the answers say of the controller.
use vss.Prelude.{
  ℕ, Bytes, codes, [], ◌≡◌, refl, Bool, true, false, ◌||◌, Option, none, some, ◌==◌, arith, str_eq,
  is_nil, if◌then◌else◌, Bool-cases, inl, inr,
}
use vss.Prelude.Int.{ℤ, pos, negsuc}
use vss.DynamicVar.{atoi, to_lower}
use vss.Text.{contains_text}
use vss.Vstp.Commands.{IController}
use vss.Http.Nested.{Fields}
use vss.Http.Requests.{
  Go, Request, Answer, answer, websocket, panicked, http_error, no_content, var_name,
}
use vss.Http.Handlers.{
  SetJson, done, failed, set_panicked, handle_path, handle_get_by_name, handle_post_by_name,
  handle_delete_by_name, handle_lock_by_name, handle_unlock_by_name, lock_answer, answer_or,
  lock_for, json_set, set_decoded, is_upgrade, lock_header,
}
use vss.Http.Exports.{values_answer}

-- The request is refused: 400, 404 or 405.
unfoldable pub is_refusal : Answer → Bool
is_refusal (answer status kind body) = status == 400 || status == 404 || status == 405
is_refusal (websocket name) = false
is_refusal panicked = false

lock_answer_accepts : (o : Option Bytes) → is_refusal (lock_answer o) ≡ false
unfolding is_refusal
lock_answer_accepts none = refl
lock_answer_accepts (some err) = elim (Bool-cases (contains_text err (codes "timeout"))) [
  | inl e ↦ rw e refl
  | inr e ↦ rw e refl
]

module _ (go : Go) {C : Type 0} (ctrl : IController C) where
  -- Nothing was done, or the answer is no refusal.
  unfoldable Refuses : Answer × C → C → Type 0
  Refuses out c = is_refusal out.0 ≡ true → out.1 ≡ c

  unchanged : (a : Answer) (c : C) → Refuses (a, c) c
  unfolding Refuses
  unchanged a c h = refl

  accepted : (a : Answer) (d c : C) → is_refusal a ≡ false → Refuses (a, d) c
  unfolding Refuses
  accepted a d c e h = absurd (ground arith)

  either_refuses :
      (b : Bool) (x y : Answer × C) (c : C)
      → Refuses x c
      → Refuses y c
      → Refuses (if b then x else y) c
  either_refuses true x y c hx hy = hx
  either_refuses false x y c hx hy = hy

  lock_for_refuses : (name : Bytes) (o : Option ℤ) (c : C) → Refuses (lock_for go ctrl name o c) c
  lock_for_refuses name none c = unchanged _ c
  lock_for_refuses name (some (negsuc n)) c = unchanged _ c
  lock_for_refuses name (some (pos n)) c =
      either_refuses (n == 0) _ _ c (unchanged _ c) (accepted _ _ c (lock_answer_accepts _))

  answered :
      (status : ℕ) (o : Option Bytes) (d c : C)
      → is_refusal (http_error [] status) ≡ false
      → Refuses (answer_or status o, d) c
  unfolding is_refusal
  answered status none d c e = accepted no_content d c refl
  answered status (some err) d c e = accepted (http_error err status) d c e

  unlock_refuses : (name : Bytes) (c : C) → Refuses (handle_unlock_by_name go ctrl name c) c
  unfolding handle_unlock_by_name is_refusal
  unlock_refuses name c = answered 500 _ _ c refl

  lock_refuses :
      (timeout name : Bytes) (c : C) → Refuses (handle_lock_by_name go ctrl timeout name c) c
  unfolding handle_lock_by_name
  lock_refuses timeout name c =
      lock_for_refuses name (atoi (if is_nil timeout then codes "30" else timeout)) c

  get_refuses :
      (r : Request) (name : Bytes) (c : C) → Refuses (handle_get_by_name go ctrl r name c) c
  unfolding handle_get_by_name
  get_refuses r name c =
      let action = to_lower (r.query (codes "action")) in
      either_refuses (str_eq action (codes "lock")) _ _ c
        (lock_refuses (lock_header go ctrl r) name c)
        (either_refuses (str_eq action (codes "unlock")) _ _ c (unlock_refuses name c)
          (unchanged (values_answer go r name (ctrl.get_vars name c)) c))

  json_set_refuses : (out : SetJson × C) (c : C) → Refuses (json_set go ctrl out) c
  unfolding is_refusal
  json_set_refuses (done, d) c = accepted no_content d c refl
  json_set_refuses (failed err, d) c = accepted no_content d c refl
  json_set_refuses (set_panicked, d) c = accepted panicked d c refl

  decoded_refuses : (o : Option Fields) (c : C) → Refuses (set_decoded go ctrl o c) c
  decoded_refuses none c = unchanged _ c
  decoded_refuses (some obj) c = json_set_refuses _ c

  post_refuses :
      (r : Request) (name : Bytes) (c : C) → Refuses (handle_post_by_name go ctrl r name c) c
  unfolding handle_post_by_name is_refusal
  post_refuses r name c =
      let set = ctrl.set_var name (r.body) c in
      either_refuses (contains_text (r.header (codes "Content-Type")) (codes "application/json")) _
        _ c (decoded_refuses (go.decode (r.body)) c) (answered 403 set.0 set.1 c refl)

  delete_refuses : (name : Bytes) (c : C) → Refuses (handle_delete_by_name go ctrl name c) c
  unfolding handle_delete_by_name is_refusal
  delete_refuses name c = answered 500 _ _ c refl

  handle_path_refuses : (r : Request) (c : C) → Refuses (handle_path go ctrl r c) c
  unfolding handle_path
  handle_path_refuses r c =
      let name = var_name (r.path) in
      either_refuses (is_nil name) _ _ c
        (unchanged (http_error (codes "variable path required") 404) c)
        (either_refuses (is_upgrade go ctrl r) _ _ c (unchanged (websocket name) c) (
          either_refuses (str_eq (r.method) (codes "GET")) _ _ c (get_refuses r name c) (
            either_refuses (str_eq (r.method) (codes "POST")) _ _ c (post_refuses r name c) (
              either_refuses (str_eq (r.method) (codes "DELETE")) _ _ c (delete_refuses name c) (
                either_refuses (str_eq (r.method) (codes "LOCK")) _ _ c
                  (lock_refuses (r.header (codes "Lock-Timeout")) name c)
                  (either_refuses (str_eq (r.method) (codes "UNLOCK")) _ _ c (unlock_refuses name c)
                    (unchanged (answer 405 [] []) c)))))))

  -- A request that is answered 400, 404 or 405 leaves the controller as it was.
  pub handle_path-refusal :
      (r : Request) (c : C)
      → is_refusal (handle_path go ctrl r c).0 ≡ true
      → (handle_path go ctrl r c).1 ≡ c
  unfolding Refuses
  handle_path-refusal r c = handle_path_refuses r c

  -- The same request with another method, and the header Lock-Timeout that a GET would set.
  abbrev as_lock : Request → Request
  as_lock r = record r {
    method = codes "LOCK";
    header =
        λ key. if str_eq key (codes "Lock-Timeout") then lock_header go ctrl r else r.header key;
  }

  -- A GET with action=lock, in upper or lower case, is a LOCK whose Lock-Timeout is the parameter
  -- locktimeout when it is given: the same answer and the same controller.
  pub handle_path-as_lock :
      (r : Request) (c : C)
      → r.method ≡ codes "GET"
      → to_lower (r.query (codes "action")) ≡ codes "lock"
      → handle_path go ctrl r c ≡ handle_path go ctrl (as_lock r) c
  unfolding handle_path handle_get_by_name str_eq
  handle_path-as_lock r c m a = rw (m, a) refl
