-- ===== src/Runtime/Actions/Runs.antt =====
-- What holds of the entries of an action after every call that it makes.
-- packages/core/src/runtime/ContractRuntime.ts and FunctionRuntime.ts: execute.
use canvas.Base.{
  ◌≡◌, refl, Option, none, some, Str, Result, ok, throw, OnOk, OnOk-bind, OnOk-any, Bool-cases, inl,
  inr,
}
use canvas.Base.Maps.{lookup}
use canvas.Gossip.Log.Types.{or_throw}
use canvas.Db.Types.{ModelValue}
use canvas.Runtime.State.{ActionPayload, Payload, session, action, other, Delivery}
use canvas.Runtime.Actions.{
  Entries, ActionContext, Action, returns, throws, gets, sets, deletes, ModelApi, Implementation,
  Kind, Host, Read, put_entry, no_entries, run_action, after, outcome, api_of, execute_found,
  execute_payload, context_of,
}
use canvas.Runtime.Actions.Laws.{AreKeyed, IsApi, Sets, api_of-IsApi}

-- The models whose rows an action sets or deletes.
unfoldable pub Writes : {N : Type 0} → (Str → Type 0) → Action N → Type 0
Writes W returns = Unit
Writes W (throws message) = Unit
Writes {N} W (gets model key next) =
    (answer : Result (Option (ModelValue N))) → Writes W (next answer)
Writes W (sets model value next) = W model × ((answer : Result (Unit {0})) → Writes W (next answer))
Writes W (deletes model key next) =
    W model × ((answer : Result (Unit {0})) → Writes W (next answer))

-- Every action may set rows of some model.
pub Writes-any : {N : Type 0} (a : Action N) → Writes (λ model. Unit {0}) a
unfolding Writes
Writes-any returns = tt
Writes-any (throws message) = tt
Writes-any (gets model key next) = λ answer. Writes-any (next answer)
Writes-any (sets model value next) = (tt, λ answer. Writes-any (next answer))
Writes-any (deletes model key next) = (tt, λ answer. Writes-any (next answer))

module _ (host : Host) where
  open host use {js, Args, models, actions, ignore_missing_actions}

  -- The actions of the runtime set and delete rows of certain models only.
  abbrev pub ActionsWrite : (Str → Type 0) → Type 1
  ActionsWrite W =
      (name : Str) (i : Implementation Args js.Num)
      → lookup name actions ≡ some i
      → (typed : i.Typed) (context : ActionContext) → Writes W (i.apply typed context)

  -- A predicate of entries that the calls keep.
  pub record IsKept (W : Str → Type 0) (P : Entries js.Num → Type 0) : Type 0 where
    pub at_first : P (no_entries models)
    pub by_set :
        (name : Str) (value : ModelValue js.Num) (entries : Entries js.Num)
        {entries' : Entries js.Num}
        → W name
        → P entries
        → Sets host name value entries entries'
        → P entries'
    pub by_delete :
        (name key : Str) (entries : Entries js.Num) {entries' : Entries js.Num}
        → W name
        → P entries
        → put_entry name key none entries ≡ ok entries'
        → P entries'

  module _ (W : Str → Type 0) (P : Entries js.Num → Type 0) (kept : IsKept W P) where
    after-P :
        (called : Result (Entries js.Num)) (entries : Entries js.Num)
        → P entries
        → ((entries' : Entries js.Num) → called ≡ ok entries' → P entries')
        → P (after called entries)
    after-P (ok t) entries p h = h t refl
    after-P (throw m) entries p h = p

    run_action-P :
        (read : Read js.Num) (api : ModelApi js.Num)
        → IsApi host read api
        → (a : Action js.Num) (entries : Entries js.Num) → Writes W a
        → P entries
        → OnOk P (run_action api a entries)
    unfolding run_action Writes
    run_action-P read api is returns entries w p = p
    run_action-P read api is (throws message) entries w p = tt
    run_action-P read api is (gets model key next) entries w p =
        run_action-P read api is (next (api.get_row model key entries)) entries
          (w (api.get_row model key entries)) p
    run_action-P read api is (sets model value next) entries w p =
        let called = api.set_row model value entries in
        run_action-P read api is (next (outcome called)) (after called entries)
          (w.1 (outcome called))
          (after-P called entries p
            (λ t e. kept.by_set model value entries w.0 p (is.sets model value entries e)))
    run_action-P read api is (deletes model key next) entries w p =
        let called = api.delete_row model key entries in
        run_action-P read api is (next (outcome called)) (after called entries)
          (w.1 (outcome called))
          (after-P called entries p
            (λ t e. kept.by_delete model key entries w.0 p (is.deletes model key entries e)))

    execute_found-P :
        AreKeyed models
        → ActionsWrite W
        → (kind : Kind) (read : Read js.Num) (d : Delivery Args) (a : ActionPayload Args)
          (found : Option (Implementation Args js.Num))
        → lookup a.name actions ≡ found
        → OnOk P (execute_found host kind read d a found)
    unfolding execute_found
    execute_found-P k writes kind read d a none at = elim (Bool-cases ignore_missing_actions) [
      | inl e ↦ rw e kept.at_first
      | inr e ↦ rw e tt
    ]
    execute_found-P k writes kind read d a (some i) at =
        OnOk-bind (λ t. Unit {0}) P
          (or_throw (i.to_typed a.args) "action args did not validate the provided schema type") _
          (OnOk-any (or_throw (i.to_typed a.args) _))
          (λ typed e u.
            run_action-P read (api_of host kind read) (api_of-IsApi host k kind read)
              (i.apply typed (context_of host kind d a)) (no_entries models)
              (writes a.name i at typed (context_of host kind d a)) kept.at_first)

    -- Entries that an action of either runtime returns.
    pub execute_payload-P :
        AreKeyed models
        → ActionsWrite W
        → (kind : Kind) (read : Read js.Num) (d : Delivery Args) (p : Payload Args)
        → OnOk P (execute_payload host kind read d p)
    unfolding execute_payload
    execute_payload-P k writes kind read d (action a) =
        execute_found-P k writes kind read d a (lookup a.name actions) refl
    execute_payload-P k writes kind read d (session s) = tt
    execute_payload-P k writes kind read d other = tt
