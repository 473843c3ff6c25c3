-- ===== src/Reminders/Requests.antt =====
-- What `ReminderEngine` makes of one reminder, one item, one alarm and one rule.
use caldav_assistant_skeleto.Prelude.{
  ℕ, zero, suc, ◌+◌, String, Bool, not, ◌&&◌, ◌||◌, Option, none, some, List, [], ◌∷◌, ◌++◌, map,
  is_blank, strip, if◌then◌else◌, ◌==◌,
}
use caldav_assistant_skeleto.Temporal.{Datetime, When}
use caldav_assistant_skeleto.Api.{Task, Item, task, event}
use caldav_assistant_skeleto.Reminders.{
  NotificationRequest, Reminder, Timedelta, Trigger, absolute, relative, untimed, Alarm, Rule, Host,
  or_text, or_none, ◌<>◌, gather, enumerate, decimal, datetime_of, datetime_if, aware_in,
  has_same_time, shift, scale,
}

module _ (host : Host) where
  -- `_key`
  unfoldable pub key_of : String → String → Datetime → String → String
  key_of source token when suffix =
      let base = source <> ":" <> or_text token "-" <> ":" <> host.isoformat when in
      if is_blank suffix then base else base <> ":" <> suffix

  unfoldable pub active_task : Task → Bool
  active_task t =
      let status = host.upper t.status in
      not t.completed && not (status == "COMPLETED" || status == "CANCELLED")

  -- `_from_reminder`
  unfoldable pub request_at : Reminder → Datetime → NotificationRequest
  request_at r when =
      let title = or_text (strip r.title) "Reminder" in
      let id = strip r.id in
      let source = if r.snoozed then "snooze" else "reminder" in
      record {
        key = or_text (strip r.own_key) (key_of source (or_text id title) when "");
        when = when;
        title = title;
        body = r.body;
        actions = r.actions;
        source = source;
        object_id = or_none id;
      }

  unfoldable pub from_reminder : ℕ → Reminder → Option NotificationRequest
  from_reminder tz r =
      if r.cancelled
      then none
      else elim (datetime_if r.when tz) [ none ↦ none | some when ↦ some (request_at r when) ]

  abbrev pub item_id : Item → String
  item_id (task t) = t.id
  item_id (event e) = e.id

  abbrev pub item_summary : Item → String
  item_summary (task t) = t.summary
  item_summary (event e) = e.summary

  -- `kind.title()`
  abbrev pub kind_title : Item → String
  kind_title (task t) = "Task"
  kind_title (event e) = "Event"

  abbrev pub title_of : Item → String
  title_of item = or_text (strip (item_summary item)) (kind_title item)

  abbrev pub start_of : Item → Option When
  start_of (task t) = t.start
  start_of (event e) = e.start

  abbrev pub end_of : Item → Option When
  end_of (task t) = t.due
  end_of (event e) = e.end

  abbrev moved : Option Datetime → Timedelta → Option Datetime
  moved none d = none
  moved (some basis) d = some (shift basis d)

  -- `_resolve_trigger`: the moment of an alarm, if it has one.
  unfoldable pub resolve_trigger : Item → Trigger → Bool → ℕ → Option Datetime
  resolve_trigger item (absolute w) from_end tz = datetime_of w tz
  resolve_trigger item untimed from_end tz = none
  resolve_trigger item (relative d) from_end tz =
      moved (datetime_if (if from_end then end_of item else start_of item) tz) d

  -- The repeats after the first time, from an index on.
  abbrev repeats : Datetime → Timedelta → ℕ → ℕ → List Datetime
  repeats first d index zero = []
  repeats first d index (suc n) = shift first (scale d index) ∷ repeats first d (index + 1) n

  abbrev pub times_of : Datetime → ℕ → Option Timedelta → List Datetime
  times_of first repeat none = first ∷ []
  times_of first repeat (some d) = first ∷ repeats first d 1 repeat

  abbrev pub is_display : String → Bool
  is_display action = let text = strip action in is_blank text || host.upper text == "DISPLAY"

  unfoldable pub alarm_request : Item → Alarm → ℕ → ℕ → Datetime → NotificationRequest
  alarm_request item alarm alarm_index repeat_index when =
      let id = strip (item_id item) in
      record {
        key =
            key_of "valarm" (or_text id (title_of item)) when
              (decimal alarm_index <> ":" <> decimal repeat_index);
        when = when;
        title = title_of item;
        body = strip alarm.description;
        actions = [];
        source = "valarm";
        object_id = or_none id;
      }

  unfoldable pub alarm_requests : Item → ℕ → ℕ × Alarm → List NotificationRequest
  alarm_requests item tz (alarm_index, alarm) =
      if is_display alarm.action
      then elim (resolve_trigger item alarm.trigger alarm.from_end tz) [
        | none ↦ []
        | some first ↦
            map (λ (p : ℕ × Datetime). alarm_request item alarm alarm_index p.0 p.1)
              (enumerate 0 (times_of first alarm.repeat alarm.duration))
      ]
      else []

  -- `_valarm_requests`
  unfoldable pub valarm_requests : Item → ℕ → List NotificationRequest
  valarm_requests item tz = gather (alarm_requests item tz) (enumerate 0 (host.alarms item))

  abbrev pub own_source : Item → String
  own_source (task t) = "task_due"
  own_source (event e) = "event_start"

  abbrev pub own_body : Item → String
  own_body (task t) = "Task due"
  own_body (event e) = or_text (strip e.location) "Event starting"

  -- The due time of a task, the start of an event.
  abbrev pub own_when : Item → Option When
  own_when (task t) = t.due
  own_when (event e) = e.start

  unfoldable pub own_request : Item → Datetime → NotificationRequest
  own_request item when =
      let id = strip (item_id item) in
      record {
        key = key_of (own_source item) (or_text id (title_of item)) when "";
        when = when;
        title = title_of item;
        body = own_body item;
        actions = [];
        source = own_source item;
        object_id = or_none id;
      }

  -- `_from_item`: no second request at the time of an alarm.
  unfoldable pub from_item : ℕ → Item → List NotificationRequest
  from_item tz item =
      let requests = valarm_requests item tz in
      elim (datetime_if (own_when item) tz) [
        | none ↦ requests
        | some when ↦
            if has_same_time host.zones tz requests when
            then requests
            else requests ++ own_request item when ∷ []
      ]

  abbrev rule_token : Item → String
  rule_token item =
      or_text (strip (item_id item))
        (or_text (strip (item_summary item)) (elim item [ task t ↦ "task" | event e ↦ "event" ]))

  abbrev or_id : Option String → Option String → Option String
  or_id none own = own
  or_id (some id) own = if is_blank id then own else some id

  -- The request of a rule, completed.
  pub completed_request : Rule → Item → ℕ → ℕ × NotificationRequest → NotificationRequest
  completed_request rule item tz (index, r) =
      let when = aware_in tz r.when r.when.zone in
      record r {
        key =
            or_text (strip r.key)
              (key_of ("rule:" <> rule.name <> ":" <> decimal index) (rule_token item) when "");
        when = when;
        source = or_text r.source "rule";
        object_id = or_id r.object_id (or_none (strip (item_id item)));
      }

  abbrev produced_list : Option (List NotificationRequest) → List NotificationRequest
  produced_list none = []
  produced_list (some rs) = rs

  -- `_run_rule`
  pub run_rule : Datetime → ℕ → Item → Rule → List NotificationRequest
  run_rule clock tz item rule =
      map (completed_request rule item tz) (enumerate 0 (produced_list (rule.produce item clock)))
