-- ===== src/Client/Observing.antt =====
-- vsscli.go: the observers of variables. An observer is known by its number, which stands for its
-- callback.
use vss.Prelude.{
  Bytes, codes, List, [], ◌∷◌, ◌++◌, ◌≡◌, refl, ap, false, Option, none, some, str_eq, is_nil,
  if◌then◌else◌,
}
use vss.Prelude.Int.{ℤ, int_eq, incr}
use vss.Prelude.Dict.{find, store, discard}
use vss.DynamicVar.{itoa, atoi}
use vss.Text.{contains, cut_at_first, contains-append}
use vss.Vstp.Messages.{separate_name_and_metadata, trim_close, var_changed}
use vss.Client.{Pack, pack_from_cmd_and_payload, separate_by, sending_error}

-- varChangeObservingInfo
pub record ObservingInfo : Type 0 where
  pub var_name : Bytes
  pub custom_id : Bytes

-- VssCli: CustomObserverIdCount and VarChangeObservings.
pub record Observings : Type 0 where
  pub custom_observer_id_count : ℤ
  pub var_change_observings : List (ℤ × ObservingInfo)

abbrev pub named_with_id : Bytes → Bytes → Bytes
named_with_id name custom_id = name ++ b'(' ∷ (custom_id ++ b')' ∷ [])

-- What Unsubscribe sends, the error that it returns, and the observers afterwards; `sent` is the error
-- of sendToServer.
abbrev unsubscribe_found :
    ℤ → Option Bytes → Option ObservingInfo → Observings → List Bytes × Option Bytes × Observings
unsubscribe_found id sent none o = ([], some (codes "subscription id not found"), o)
unsubscribe_found id sent (some info) o = (
  pack_from_cmd_and_payload (codes "unsubscribe") (named_with_id (info.var_name) (info.custom_id))
      ∷ [],
  sending_error (codes "error sending var unsubscription request to the server: ") sent,
  record o { var_change_observings = discard int_eq id o.var_change_observings },
)

-- Unsubscribe
unfoldable pub unsubscribe : ℤ → Option Bytes → Observings → List Bytes × Option Bytes × Observings
unsubscribe id sent o = unsubscribe_found id sent (find int_eq id o.var_change_observings) o

abbrev subscribed :
    ℤ → Bytes → Option Bytes → Option Bytes → Observings → List Bytes × Option ℤ × Observings
subscribed id dt none sent o = (dt ∷ [], some id, o)
subscribed id dt (some err) sent o =
    let undone = unsubscribe id sent o in (dt ∷ undone.0, none, undone.2)

-- Subscribe: what it sends, the subscription id or `none` for an error, and the observers afterwards.
-- `sent` and `sent_again` are the errors of sendToServer.
unfoldable pub subscribe :
    Bytes → Bytes → Option Bytes → Option Bytes → Observings → List Bytes × Option ℤ × Observings
subscribe prefix var sent sent_again o =
    let name = prefix ++ var in
    let id = o.custom_observer_id_count in
    subscribed id (pack_from_cmd_and_payload (codes "subscribe") (named_with_id name (itoa id)))
      sent sent_again
      (record {
        custom_observer_id_count = incr id;
        var_change_observings =
            store int_eq id (record { var_name = name; custom_id = itoa id })
              o.var_change_observings;
      })

-- What a pack does to the observers: nothing, a call of a callback with a name and a value, or a panic
-- when the name is shorter than the prefix.
pub data Event : Type 0 where
  ignored : Event
  called : ℤ → Bytes → Bytes → Event
  slice_out_of_range : Event

-- name[len(prefix):]
unfoldable pub drop_length : Bytes → Bytes → Option Bytes
drop_length [] name = some name
drop_length (p ∷ prefix) [] = none
drop_length (p ∷ prefix) (c ∷ name) = drop_length prefix name

abbrev call_with : ℤ → Bytes → Option Bytes → Event
call_with id func_text none = slice_out_of_range
call_with id func_text (some name) = called id name func_text

abbrev call_found : ℤ → Bytes → Option Bytes → Option ObservingInfo → Event
call_found id func_text name none = ignored
call_found id func_text name (some info) = call_with id func_text name

abbrev call_by_id : Bytes → Bytes → Bytes → Option ℤ → Observings → Event
call_by_id func_text prefix name none o = ignored
call_by_id func_text prefix name (some id) o =
    call_found id func_text (drop_length prefix name) (find int_eq id o.var_change_observings)

-- initVarChangeObserver; the value that was sent is the second part of `parts`.
unfoldable pub on_pack : Bytes → Bytes → Pack → Observings → Event
on_pack func_text prefix pack o =
    let parts = separate_by (pack.payload) (codes "=:;") in
    let named = separate_name_and_metadata parts.0 in
    if str_eq (pack.cmd) (codes "varchanged")
    then call_by_id func_text prefix named.0 (atoi named.1) o
    else ignored

drop_length-append : (prefix name : Bytes) → drop_length prefix (prefix ++ name) ≡ some name
unfolding drop_length
drop_length-append [] name = refl
drop_length-append (p ∷ prefix) name = drop_length-append prefix name

trim_close_end : (s : Bytes) → trim_close (s ++ b')' ∷ []) ≡ s
unfolding trim_close
trim_close_end [] = refl
trim_close_end (c ∷ []) = refl
trim_close_end (c ∷ d ∷ s) = ap (λ t. c ∷ t) (trim_close_end (d ∷ s))

separate_named :
    (name custom_id : Bytes)
    → contains name b'(' ≡ false
    → separate_name_and_metadata (named_with_id name custom_id) ≡ (name, custom_id)
unfolding separate_name_and_metadata
separate_named name custom_id h =
    rw (cut_at_first b'(' name (custom_id ++ b')' ∷ []) h)
      (ap (λ m. (name, m)) (trim_close_end custom_id))

separate_changed :
    (name custom_id value : Bytes)
    → contains name b'=' ≡ false
    → contains custom_id b'=' ≡ false
    → separate_by (named_with_id name custom_id ++ b'=' ∷ value) (codes "=:;")
      ≡ (named_with_id name custom_id, value)
unfolding separate_by
separate_changed name custom_id value hn hi =
    let lacking : contains (named_with_id name custom_id) b'=' ≡ false =
      rw (contains-append b'=' name, hn)
        (unfold contains in rw (contains-append b'=' custom_id, hi) refl) in
    rw (cut_at_first b'=' (named_with_id name custom_id) value lacking) refl

-- When the server tells of a change of an observed variable, the client calls that observer, with the
-- name without its prefix; what it gives as the value does not depend on the value that was sent. The
-- name has no `=` and no parenthesis, and the id, which is the number of an observer, no `=`.
pub on_pack-var_changed :
    (func_text prefix name custom_id value : Bytes) (id : ℤ) (info : ObservingInfo) (o : Observings)
    → contains (prefix ++ name) b'=' ≡ false
    → contains (prefix ++ name) b'(' ≡ false
    → contains custom_id b'=' ≡ false
    → is_nil custom_id ≡ false
    → atoi custom_id ≡ some id
    → find int_eq id o.var_change_observings ≡ some info
    → on_pack func_text prefix
        (record {
          cmd = codes "varchanged";
          payload = var_changed (prefix ++ name) custom_id value;
        })
        o
      ≡ called id name func_text
unfolding on_pack var_changed str_eq
on_pack-var_changed func_text prefix name custom_id value id info o hn hp hi hne e f =
    rw
      (
        hne,
        separate_changed (prefix ++ name) custom_id value hn hi,
        separate_named (prefix ++ name) custom_id hp,
        e,
        f,
        drop_length-append prefix name,
      )
      refl
