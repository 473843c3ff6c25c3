-- ===== src/Tasks/Service/Lifecycle/Frames.antt =====
-- What the lifecycle calls leave alone.
use caldav_assistant_skeleto.Prelude.{
  ◌≡◌, refl, String, Bool, true, false, Option, none, some, is_blank, strip, arith, List,
  Bool-cases, inl, inr,
}
use caldav_assistant_skeleto.Temporal.{Datetime, Zones}
use caldav_assistant_skeleto.Api.{Task, Result, ok, err, not_current}
use caldav_assistant_skeleto.Effect.Fixes.{
  Fixes, Fixes-bind, Fixes-pure, Fixes-gets, Fixes-if, Fixes-require,
}
use caldav_assistant_skeleto.Session.{SessionState}
use caldav_assistant_skeleto.Tasks.Changes.{Changes}
use caldav_assistant_skeleto.Tasks.World.{
  Adapter, World, Payload, Metadata, remember, record_activity, session_current_id, on_session,
  on_store, current_in, apply_session, settle, remember_in, record_in, UndoState, Activity,
}
use caldav_assistant_skeleto.Tasks.Service.{
  Ref, object, by_id, require_id, get, write, normalized, remember_if, fast_or_slow, update_task,
}
use caldav_assistant_skeleto.Tasks.Service.Lifecycle.{work_session_before, require_current}

module _ {Store : Type 0} where
  module _ {X : Type 0} (part : World Store → X) where
    -- The part looks at nothing but what the named setters leave alone.
    abbrev pub IgnoresStore : Type 0
    IgnoresStore = (w : World Store) (s : Store) → part (record w { store = s }) ≡ part w

    abbrev pub IgnoresSession : Type 0
    IgnoresSession =
        (w : World Store) (s : SessionState) → part (record w { session = some s }) ≡ part w

    abbrev pub IgnoresUndo : Type 0
    IgnoresUndo = (w : World Store) (u : UndoState) → part (record w { undo = some u }) ≡ part w

    abbrev pub IgnoresJournal : Type 0
    IgnoresJournal =
        (w : World Store) (log : List Activity) → part (record w { journal = some log }) ≡ part w

  module _ {X : Type 0} {part : World Store → X} where
    pub Fixes-require_id : (t : Task) → Fixes part (require_id t)
    unfolding require_id
    Fixes-require_id t = record { at = λ w. ground arith }

    pub Fixes-get : (z : Zones) (a : Adapter Store) (ref : Ref) → Fixes part (get z a ref)
    unfolding get
    Fixes-get z a (object t) = record { at = λ w. refl }
    Fixes-get z a (by_id id) = record { at = λ w. ground arith }

    pub Fixes-normalized :
        (z : Zones) (a : Adapter Store) (b : Bool) (c : Changes) → Fixes part (normalized z a b c)
    Fixes-normalized z a true c = record { at = λ w. refl }
    Fixes-normalized z a false c = record { at = λ w. refl }

    pub Fixes-on_store :
        {A : Type 0} (f : Store → Result A × Store) → IgnoresStore part → Fixes part (on_store f)
    unfolding on_store
    Fixes-on_store f i = record { at = λ w. i w (f w.store).1 }

    pub Fixes-write :
        (z : Zones) (a : Adapter Store) (t : Task) (id : String) (c : Changes)
        → IgnoresStore part
        → Fixes part (write z a t id c)
    unfolding write
    Fixes-write z a t id c i = Fixes-bind _ _ (Fixes-on_store _ i) (λ o. slow o)
      where
        slow : (o : Option Task) → Fixes part (fast_or_slow o (on_store (a.update_task id c)))
        slow none = Fixes-on_store _ i
        slow (some u) = Fixes-pure u

    pub Fixes-session_current_id :
        (a : Adapter Store) → IgnoresSession part → Fixes part (session_current_id a)
    unfolding session_current_id
    Fixes-session_current_id a i = record { at = λ w. on w w.session }
      where
        on : (w : World Store) (o : Option SessionState) → part (current_in a o w).1 ≡ part w
        on w none = refl
        on w (some s) = i w _

    pub Fixes-on_session :
        (f : SessionState → Result SessionState) → IgnoresSession part → Fixes part (on_session f)
    unfolding on_session
    Fixes-on_session f i = record { at = λ w. on w w.session }
      where
        done_with : (w : World Store) (r : Result SessionState) → part (settle r w).1 ≡ part w
        done_with w (ok s') = i w s'
        done_with w (err e) = refl

        on : (w : World Store) (o : Option SessionState) → part (apply_session f o w).1 ≡ part w
        on w none = refl
        on w (some s) = done_with w (f s)

    pub Fixes-remember : (p : Payload) → IgnoresUndo part → Fixes part (remember p)
    unfolding remember
    Fixes-remember p i = record { at = λ w. on w w.undo }
      where
        on : (w : World Store) (o : Option UndoState) → part (remember_in p o w).1 ≡ part w
        on w none = refl
        on w (some u) = i w _

    pub Fixes-remember_if :
        (z : Zones) (a : Adapter Store) (undo : Bool) (p : Payload)
        → IgnoresUndo part
        → Fixes part (remember_if z a undo p)
    Fixes-remember_if z a true p i = Fixes-remember p i
    Fixes-remember_if z a false p i = Fixes-pure false

    module _ (z : Zones) (a : Adapter Store) where
      -- An update that is not journalled, nor remembered if `undo` is false.
      pub Fixes-update_task :
          (ref : Ref) (c : Changes) (validate undo : Bool)
          → IgnoresStore part
          → ((p : Payload) → Fixes part (remember_if z a undo p))
          → Fixes part (update_task z a ref c none validate undo)
      unfolding update_task
      Fixes-update_task ref c validate undo i r = Fixes-bind _ _ (Fixes-get z a ref) λ obj.
          Fixes-bind _ _ (Fixes-require_id obj) λ id.
            Fixes-bind _ _ (Fixes-normalized z a validate c) λ c'.
              Fixes-bind _ _ (Fixes-write z a obj id c' i) λ updated.
                Fixes-bind _ _ (r _) λ remembered. Fixes-bind _ _ (Fixes-pure tt) λ _. Fixes-pure _

      pub Fixes-update_quiet :
          (ref : Ref) (c : Changes)
          → IgnoresStore part
          → Fixes part (update_task z a ref c none true false)
      Fixes-update_quiet ref c i = Fixes-update_task ref c true false i (λ p. Fixes-pure false)

      pub Fixes-update_undoable :
          (ref : Ref) (c : Changes)
          → IgnoresStore part
          → IgnoresUndo part
          → Fixes part (update_task z a ref c none true true)
      Fixes-update_undoable ref c i j =
          Fixes-update_task ref c true true i (λ p. Fixes-remember p j)

      pub Fixes-work_session_before :
          (id : String) → IgnoresSession part → Fixes part (work_session_before z a id)
      unfolding work_session_before
      Fixes-work_session_before id i =
          Fixes-bind _ _ (Fixes-session_current_id a i)
            λ current. Fixes-bind _ _ (Fixes-gets _) λ paused. Fixes-pure _

      pub Fixes-require_current :
          (id : String) → IgnoresSession part → Fixes part (require_current z a id)
      Fixes-require_current id i = Fixes-bind _ _ (Fixes-gets _) λ present.
          Fixes-bind _ _ (Fixes-if present _ _ (Fixes-session_current_id a i) (Fixes-pure none))
            λ current. Fixes-require _ not_current

      pub Fixes-record_activity :
          (action : String) (t : Task) (at : Option Datetime) (m : Metadata)
          → IgnoresJournal part
          → Fixes part (record_activity z action t at m)
      unfolding record_activity
      Fixes-record_activity action t at m i = record { at = λ w. on w w.journal }
        where
          on :
              (w : World Store) (o : Option (List Activity))
              → part (record_in z action t.id at m o w).1 ≡ part w
          on w none = refl
          on w (some log) = elim (Bool-cases (is_blank (strip t.id))) [
            | inl e ↦ rw e
            | inr e ↦ rw e (i w _)
          ]
