-- ===== src/Undo/Stack.antt =====
-- What an undo does to the undo manager itself.
use caldav_assistant_skeleto.Prelude.{◌≡◌, refl, subst, sym, true, Option, some, List, [], ◌∷◌}
use caldav_assistant_skeleto.Temporal.{Zones}
use caldav_assistant_skeleto.Api.{Result, ok, err}
use caldav_assistant_skeleto.Effect.{Exec, pure, continue, ◌>>=◌, ◌>>◌}
use caldav_assistant_skeleto.Effect.Runs.{Keeps, Keeps-bind}
use caldav_assistant_skeleto.Tasks.World.{
  Adapter, World, Payload, task_create, task_update, task_delete, UndoState,
}
use caldav_assistant_skeleto.Tasks.Service.{by_id, ActionResult, no_changes_yet}
use caldav_assistant_skeleto.Tasks.Service.Editing.{from_task}
use caldav_assistant_skeleto.Undo.{
  with_applying, suspended, inverse, apply, discard, undo_top, undo_from, undo_last,
}
use caldav_assistant_skeleto.Tasks.Service.Editing.Suspended.{
  Holds, Keeps-update, Keeps-create, Keeps-delete,
}

module _ {Store : Type 0} (z : Zones) (a : Adapter Store) where
  Keeps-inverse :
      (u : UndoState) → u.applying ≡ true → (p : Payload) → Keeps (Holds z a u) (inverse z a p)
  unfolding inverse
  Keeps-inverse u s (task_create id) = Keeps-delete z a u s (by_id id)
  Keeps-inverse u s (task_update id before after) = Keeps-update z a u s (by_id id) before
  Keeps-inverse u s (task_delete id snapshot) =
      Keeps-create z a u s (from_task snapshot) no_changes_yet

  Keeps-suspended :
      {A : Type 0} (body : Exec (World Store) A) (u : UndoState)
      → ((v : UndoState) → v.applying ≡ true → Keeps (Holds z a v) body)
      → Keeps (Holds z a u) (suspended z a body)
  unfolding suspended
  Keeps-suspended body u k = record {
    at = λ w h.
        let v = record u { applying = true } in
        let inside : (body (record w { undo = with_applying true w.undo })).1.undo ≡ some v =
          (k v refl).at _ (rw h refl) in
        rw (inside, h) refl;
  }

  -- Applying a payload leaves the manager as it was: the entries, and the flag.
  Keeps-apply : (u : UndoState) (p : Payload) → Keeps (Holds z a u) (apply z a p)
  unfolding apply
  Keeps-apply u p =
      Keeps-bind _ _ (Keeps-suspended _ u (λ v s. Keeps-inverse v s p))
        λ r. record { at = λ w h. h }

  -- The state of the manager after an undo, by its result.
  abbrev pub Popped : UndoState → Result ActionResult → Option UndoState → Type 0
  Popped u (ok r) after =
      (p : Payload) × (ps : List Payload) × (u.payloads ≡ p ∷ ps)
      × (after ≡ some (record u { payloads = ps }))
  Popped u (err e) after = after ≡ some u

  popped :
      (u : UndoState) (p : Payload) (ps : List Payload) (r : Result ActionResult) (w : World Store)
      → u.payloads ≡ p ∷ ps
      → w.undo ≡ some u
      → (let (r', w') = continue r (λ result. discard z a >> pure result) w in Popped u r' w'.undo)
  unfolding discard ◌>>=◌
  popped u p ps (ok r) w e h = (p, ps, e, rw (h, e) refl)
  popped u p ps (err x) w e h = h

  undo_top_lem :
      (u : UndoState) (l : List Payload) (w : World Store)
      → u.payloads ≡ l
      → w.undo ≡ some u
      → (let (r', w') = undo_top z a l w in Popped u r' w'.undo)
  unfolding ◌>>=◌
  undo_top_lem u [] w e h = h
  undo_top_lem u (p ∷ ps) w e h =
      popped u p ps (apply z a p w).0 (apply z a p w).1 e ((Keeps-apply u p).at w h)

  -- An undo that returns removes exactly the newest entry of the undo stack; one that raises leaves
  -- every entry; and either way the flag that suspends the manager is again what it was, and
  -- nothing of the inverse operation is remembered.
  pub undo_last-Popped :
      (w : World Store) (u : UndoState)
      → w.undo ≡ some u
      → (let (r, w') = undo_last z a w in Popped u r w'.undo)
  unfolding undo_last
  undo_last-Popped w u h =
      subst (λ o. let (r, w') = undo_from z a o w in Popped u r w'.undo) (sym h)
        (undo_top_lem u u.payloads w refl h)
