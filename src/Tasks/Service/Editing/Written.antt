-- ===== src/Tasks/Service/Editing/Written.antt =====
-- What `update` writes with an adapter that sets exactly the fields of the dict.
use caldav_assistant_skeleto.Prelude.{
  ℕ, ◌≡◌, refl, sym, ap, ◌∙◌, String, Bool, true, Option, none, some, List, is_blank, strip,
  Bool-cases, inl, inr,
}
use caldav_assistant_skeleto.Temporal.{Datetime, When, Zones, datetime}
use caldav_assistant_skeleto.Api.{Task, ok, err, validation, empty_id, no_id}
use caldav_assistant_skeleto.Effect.Runs.{Returns, Returns-pure, Returns-bind, Returns-fixed}
use caldav_assistant_skeleto.Tasks.Changes.{
  Value, null, bool, int, text, when, texts, Changes, normalize_changes,
}
use caldav_assistant_skeleto.Tasks.World.{
  Adapter, World, UndoState, Payload, Metadata, task_update, remember, remembered, record_activity,
  on_store,
}
use caldav_assistant_skeleto.Tasks.Service.{
  by_id, kept, when_value, datetime_value, priority_value, before_of, get, require_id, write,
  fast_or_slow, update_task,
}
use caldav_assistant_skeleto.Tasks.Service.Editing.{update, text_or}
use caldav_assistant_skeleto.Tasks.Service.Lifecycle.Frames.{
  Fixes-get, Fixes-require_id, Fixes-normalized, Fixes-write, Fixes-remember, Fixes-record_activity,
}

abbrev put_when : Option Value → Option When → Option When
put_when (some (when w)) old = some w
put_when (some null) old = none
put_when _ old = old

abbrev put_datetime : Option Value → Option Datetime → Option Datetime
put_datetime (some (when (datetime d))) old = some d
put_datetime (some null) old = none
put_datetime _ old = old

abbrev put_priority : Option Value → Option ℕ → Option ℕ
put_priority (some (int n)) old = some n
put_priority (some null) old = none
put_priority _ old = old

abbrev put_bool : Option Value → Bool → Bool
put_bool (some (bool b)) old = b
put_bool _ old = old

abbrev put_texts : Option Value → List String → List String
put_texts (some (texts ts)) old = ts
put_texts _ old = old

-- The task with the fields of the dict set.
abbrev pub patched : Changes → Task → Task
patched c t = record t {
  summary = text_or c.summary t.summary;
  description = text_or c.description t.description;
  start = put_when c.start t.start;
  due = put_when c.due t.due;
  status = text_or c.status t.status;
  completed = put_bool c.completed t.completed;
  completed_at = put_datetime c.completed_at t.completed_at;
  priority = put_priority c.priority t.priority;
  categories = put_texts c.categories t.categories;
}

back_text :
    (o : Option Value) (s s' : String) → (o ≡ none → s' ≡ s) → text_or (kept o (text s)) s' ≡ s
back_text none s s' h = h refl
back_text (some v) s s' h = refl

back_when :
    (o : Option Value) (x : Option When) → put_when (kept o (when_value x)) (put_when o x) ≡ x
back_when none x = refl
back_when (some v) none = refl
back_when (some v) (some w) = refl

back_datetime :
    (o : Option Value) (x : Option Datetime)
    → put_datetime (kept o (datetime_value x)) (put_datetime o x) ≡ x
back_datetime none x = refl
back_datetime (some v) none = refl
back_datetime (some v) (some w) = refl

back_priority :
    (o : Option Value) (x : Option ℕ)
    → put_priority (kept o (priority_value x)) (put_priority o x) ≡ x
back_priority none x = refl
back_priority (some v) none = refl
back_priority (some v) (some w) = refl

back_bool : (o : Option Value) (x : Bool) → put_bool (kept o (bool x)) (put_bool o x) ≡ x
back_bool none x = refl
back_bool (some v) x = refl

back_texts : (o : Option Value) (x : List String) → put_texts (kept o (texts x)) (put_texts o x) ≡ x
back_texts none x = refl
back_texts (some v) x = refl

text_or-none : (o : Option Value) (s : String) → o ≡ none → text_or o s ≡ s
text_or-none o s h = ap (λ p. text_or p s) h

-- Writing the old values back gives the old task.
pub patched-before : (t : Task) (c : Changes) → patched (before_of t c) (patched c t) ≡ t
unfolding before_of
patched-before t c = λ i. record t {
  summary = back_text c.summary t.summary _ (text_or-none c.summary t.summary) i;
  description =
      back_text c.description t.description _ (text_or-none c.description t.description) i;
  start = back_when c.start t.start i;
  due = back_when c.due t.due i;
  status = back_text c.status t.status _ (text_or-none c.status t.status) i;
  completed = back_bool c.completed t.completed i;
  completed_at = back_datetime c.completed_at t.completed_at i;
  priority = back_priority c.priority t.priority i;
  categories = back_texts c.categories t.categories i;
}

-- An adapter that sets exactly the fields of the dict, by its fast writer and by the plain one: what
-- it returns is what a later `get_task` reads. A fast writer that declines writes nothing.
pub record IsPlain {Store : Type 0} (a : Adapter Store) : Type 0 where
  pub declines :
      (t : Task) (c : Changes) (s s' : Store)
      → a.update_task_from_snapshot t c s ≡ (ok none, s')
      → s' ≡ s
  pub writes_fast :
      (id : String) (c : Changes) (s s' : Store) (t u : Task)
      → strip t.id ≡ id
      → a.get_task id s ≡ ok t
      → a.update_task_from_snapshot t c s ≡ (ok (some u), s')
      → (u ≡ patched c t) × (a.get_task id s' ≡ ok u)
  pub writes :
      (id : String) (c : Changes) (s s' : Store) (t u : Task)
      → a.get_task id s ≡ ok t
      → a.update_task id c s ≡ (ok u, s')
      → (u ≡ patched c t) × (a.get_task id s' ≡ ok u)

module _ {Store : Type 0} (z : Zones) (a : Adapter Store) (plain : IsPlain a) where
  -- The state after an update: what the adapter holds, and what the undo manager was told.
  abbrev pub Written : String → Changes → World Store → Task → World Store → Type 0
  Written id d w t w' =
      (a.get_task id w'.store ≡ ok (patched d t))
      × ((u : UndoState)
          → w.undo ≡ some u
          → w'.undo ≡ some (remembered (task_update id (before_of t d) d) u))

  slow_ok :
      (id : String) (c : Changes) (w : World Store) (t : Task)
      → a.get_task id w.store ≡ ok t
      → Returns
          (on_store (a.update_task id c))
          w
          (λ u w'. a.get_task id w'.store ≡ ok (patched c t))
  unfolding on_store
  slow_ok id c w t got = record {
    ends = λ u w' h.
        let wrote : a.update_task id c w.store ≡ (ok u, w'.store) = λ i. ((h i).0, (h i).1.store) in
        let (as_written, read) = plain.writes id c w.store w'.store t u got wrote in
        read ∙ ap ok as_written;
  }

  -- the plain writer, behind a fast writer that has answered
  after_fast :
      (id : String) (c : Changes) (w w1 : World Store) (t : Task) (fast : Option Task)
      → strip t.id ≡ id
      → a.get_task id w.store ≡ ok t
      → a.update_task_from_snapshot t c w.store ≡ (ok fast, w1.store)
      → Returns
          (fast_or_slow fast (on_store (a.update_task id c)))
          w1
          (λ u w'. a.get_task id w'.store ≡ ok (patched c t))
  after_fast id c w w1 t none own got first =
      slow_ok id c w1 t (rw (plain.declines t c w.store w1.store first) got)
  after_fast id c w w1 t (some u) own got first =
      let (as_written, read) = plain.writes_fast id c w.store w1.store t u own got first in
      Returns-pure u w1 _ (read ∙ ap ok as_written)

  write_ok :
      (id : String) (c : Changes) (w : World Store) (t : Task)
      → strip t.id ≡ id
      → a.get_task id w.store ≡ ok t
      → Returns (write z a t id c) w (λ u w'. a.get_task id w'.store ≡ ok (patched c t))
  unfolding write on_store
  write_ok id c w t own got =
      Returns-bind _ _ w _
        λ fast w1 first. after_fast id c w w1 t fast own got (λ i. ((first i).0, (first i).1.store))

  got_it :
      (id : String) (w : World Store) (t obj : Task)
      → strip id ≡ id
      → a.get_task id w.store ≡ ok t
      → get z a (by_id id) w ≡ (ok obj, w)
      → obj ≡ t
  unfolding get
  got_it id w t obj trimmed got h = elim (Bool-cases (is_blank id)) [
    | inl e ↦
        absurd (let bad : (err (validation empty_id), w) ≡ (ok obj, w) = rw (trimmed, e) at h in cc)
    | inr e ↦ let good : (ok t, w) ≡ (ok obj, w) = rw (trimmed, e, got) at h in cc
  ]

  named_it :
      (t : Task) (id id' : String) (w : World Store)
      → strip t.id ≡ id
      → require_id t w ≡ (ok id', w)
      → id' ≡ id
  unfolding require_id
  named_it t id id' w trimmed h = elim (Bool-cases (is_blank id)) [
    | inl e ↦
        absurd (let bad : (err (validation no_id), w) ≡ (ok id', w) = rw (trimmed, e) at h in cc)
    | inr e ↦ let good : (ok id, w) ≡ (ok id', w) = rw (trimmed, e) at h in cc
  ]

  told :
      (p : Payload) (w w' : World Store) (b : Bool) (u : UndoState)
      → remember p w ≡ (ok b, w')
      → w.undo ≡ some u
      → w'.undo ≡ some (remembered p u)
  unfolding remember
  told p w w' b u h e = ap (λ r. r.1.undo) (sym h) ∙ rw e refl

  -- The end of an update: the undo manager is told, and the journal.
  module _ (id : String) (d : Changes) (w : World Store) (t u : Task) (w1 : World Store)
      (own : strip t.id ≡ id) (got : a.get_task id w.store ≡ ok t)
      (wrote : write z a t id d w ≡ (ok u, w1)) where
    undo_kept : w1.undo ≡ w.undo
    undo_kept =
        ap (λ r. r.1.undo) (sym wrote)
        ∙ (Fixes-write {part = λ y. y.undo} z a t id d (λ _ _. refl)).at w

    ended :
        (action : String) (m : Metadata) (b : Bool) (v : Unit) (w2 w3 : World Store)
        → remember (task_update id (before_of t d) d) w1 ≡ (ok b, w2)
        → record_activity z action u none m w2 ≡ (ok v, w3)
        → Written id d w t w3
    ended action m b v w2 w3 said recorded =
        let store2 : w2.store ≡ w1.store =
          ap (λ r. r.1.store) (sym said)
          ∙ (Fixes-remember {part = λ y. y.store} (task_update id (before_of t d) d)
                (λ _ _. refl)).at
              w1 in
        let store3 : w3.store ≡ w2.store =
          ap (λ r. r.1.store) (sym recorded)
          ∙ (Fixes-record_activity {part = λ y. y.store} z a action u none m (λ _ _. refl)).at w2 in
        let undo3 : w3.undo ≡ w2.undo =
          ap (λ r. r.1.undo) (sym recorded)
          ∙ (Fixes-record_activity {part = λ y. y.undo} z a action u none m (λ _ _. refl)).at w2 in
        (
          ap (a.get_task id) (store3 ∙ store2) ∙ (write_ok id d w t own got).ends u w1 wrote,
          λ m' e. undo3 ∙ told _ w1 w2 b m' said (undo_kept ∙ e),
        )

  pub updated_ok :
      (id : String) (c d : Changes) (w : World Store) (t : Task)
      → strip id ≡ id
      → strip t.id ≡ id
      → a.get_task id w.store ≡ ok t
      → normalize_changes w.now c ≡ ok d
      → Returns (update z a (by_id id) c) w (λ _ w'. Written id d w t w')
  unfolding update update_task
  updated_ok id c d w t trimmed own got normal =
      Returns-fixed (get z a (by_id id)) _ w _ (Fixes-get z a (by_id id)) λ obj found.
        rw (got_it id w t obj trimmed got found) (
          Returns-fixed (require_id t) _ w _ (Fixes-require_id t) λ id' named.
            rw (named_it t id id' w own named) (
              Returns-fixed _ _ w _ (Fixes-normalized z a true c) λ d' made.
                let answer : ok d' ≡ ok d = ap (λ r. r.0) (sym made) ∙ normal in
                let same : d' ≡ d = cc in
                rw same (
                  Returns-bind _ _ w _ λ u w1 wrote. Returns-bind _ _ w1 _ λ b w2 said.
                    Returns-bind _ _ w2 _ λ v w3 recorded.
                      Returns-pure _ w3 _
                        (ended id d w t u w1 own got wrote _ _ b v w2 w3 said recorded))))
