-- ===== src/Notification.antt =====
-- backend/internal/service/notification_service.go. The two channels are outside the program: what
-- the n-th call of a channel returns is a parameter. The columns of times, which nothing reads, and
-- the log lines are left out, and so is the lock: one call runs at a time.
pub mod Delivery
mod Examples
use suzuran.Prelude.{
  ℕ, zero, suc, ◌+◌, String, Bool, true, false, not, ◌&&◌, ◌||◌, Option, none, some, List, [], ◌∷◌,
  length, filter, find?, str_eq, ltb, leb, ◌==◌, if◌then◌else◌,
}
use suzuran.Prelude.Error.{Error, invalid_email, undelivered, retries_exhausted}
use suzuran.Prelude.Result.{Result, ok, err}
use suzuran.Prelude.Exec.{Exec, pure, raise, raise_if, ◌>>=◌, ◌>>◌}

pub data DeliveryStatus : Type 0 where
  pending sent retrying failed delivered : DeliveryStatus

pub data NotificationType : Type 0 where
  in_app email : NotificationType

pub record Notification : Type 0 where
  pub id : String
  pub kind : NotificationType
  pub recipient : String
  pub title : String
  pub body : String
  pub status : DeliveryStatus
  pub attempts : ℕ
  pub last_error : String

-- InAppChannel.Deliver and EmailChannel.Send, by the number of the call: no error, or its text.
-- `format_id` and `decimal` are fmt.Sprintf with the formats of the code, `replace` is
-- strings.ReplaceAll of a placeholder, `clock` is time.Now().UnixNano() by the number of the call.
pub record Env : Type 0 where
  pub deliver : ℕ → ℕ → String → String → Option String
  pub send : ℕ → String → String → String → Option String
  pub clock : ℕ → ℕ
  pub format_id : String → ℕ → ℕ → String
  pub decimal : ℕ → String
  pub replace : String → String → String → String
  pub format_message : String → ℕ → String → String
  pub bytes : String → List ℕ

-- The map of notifications, the counter of their identifiers, and how often each channel was called.
pub record State : Type 0 where
  pub store : List Notification
  pub id_counter : ℕ
  pub deliveries : ℕ
  pub sends : ℕ

abbrev between : ℕ → ℕ → ℕ → Bool
between low high c = leb low c && leb c high

abbrev is_letter : ℕ → Bool
is_letter c = between b'a' b'z' c || between b'A' b'Z' c

abbrev is_domain : ℕ → Bool
is_domain c = is_letter c || between b'0' b'9' c || c == b'.' || c == b'-'

abbrev is_local : ℕ → Bool
is_local c = is_domain c || c == b'_' || c == b'%' || c == b'+'

abbrev all_letters : List ℕ → Bool
all_letters [] = true
all_letters (c ∷ t) = is_letter c && all_letters t

-- `[a-zA-Z0-9.\-]+\.[a-zA-Z]{2,}$` after `n` bytes of the domain
abbrev matches_domain : ℕ → List ℕ → Bool
matches_domain n [] = false
matches_domain n (c ∷ t) =
    let rest = matches_domain (suc n) t in
    (leb 1 n && c == b'.' && all_letters t && leb 2 (length t)) || (is_domain c && rest)

-- `[a-zA-Z0-9._%+\-]+@` after `n` bytes, and the domain
abbrev matches_local : ℕ → List ℕ → Bool
matches_local n [] = false
matches_local n (c ∷ t) =
    let rest = matches_local (suc n) t in
    (leb 1 n && c == b'@' && matches_domain 0 t) || (is_local c && rest)

unfoldable pub is_valid_email : List ℕ → Bool
is_valid_email address = matches_local 0 address

-- `s.store[n.ID] = n`, and a write through the pointer that the map holds
abbrev pub put : Notification → State → State
put n s = record s { store = n ∷ filter (λ m. not (str_eq m.id n.id)) s.store }

-- GetNotification and GetDeliveryStatus
unfoldable pub get_notification : String → State → Option Notification
get_notification id s = find? (λ m. str_eq m.id id) s.store

unfoldable pub get_delivery_status : String → State → Option DeliveryStatus
get_delivery_status id s = elim (get_notification id s) [ none ↦ none | some n ↦ some n.status ]

module _ (e : Env) where
  -- nextID
  abbrev pub next_id : String → State → String
  next_id prefix s = e.format_id prefix (e.clock s.id_counter) (suc s.id_counter)

  abbrev pub counted : State → State
  counted s = record s { id_counter = suc s.id_counter }

  abbrev pub new_notification : NotificationType → String → String → String → String → Notification
  new_notification kind id recipient title body = record {
    id = id;
    kind = kind;
    recipient = recipient;
    title = title;
    body = body;
    status = pending;
    attempts = 0;
    last_error = "";
  }

  abbrev tracked : Notification → Option String → Exec State (Unit {0})
  tracked n none s = (ok tt, put (record n { status = delivered }) s)
  tracked n (some x) s = (err (undelivered x), put (record n { status = failed; last_error = x }) s)

  unfoldable pub send_in_app : ℕ → String → String → Exec State (Unit {0})
  send_in_app user title message s =
      let n = new_notification in_app (next_id "inapp" s) (e.decimal user) title message in
      let t = put n (counted s) in
      tracked n (e.deliver t.deliveries user title message)
        (record t { deliveries = suc t.deliveries })

  abbrev pub sent_once : State → State
  sent_once s = record s { sends = suc s.sends }

  -- The loop of retrySend with `left` attempts to go, after `done` attempts, the last of which
  -- failed with `last`.
  unfoldable pub retry_from : ℕ → ℕ → String → Notification → Exec State (Unit {0})
  retry_from zero done last n s =
      (err (retries_exhausted last), put (record n { status = failed; last_error = last }) s)
  retry_from (suc left) done last n s = elim (e.send s.sends n.recipient n.title n.body) [
    | none ↦ (ok tt, put (record n { attempts = suc done; status = delivered }) (sent_once s))
    | some x ↦
        retry_from left (suc done) x
          (record n { attempts = suc done; status = retrying; last_error = x })
          (put (record n { attempts = suc done; status = retrying; last_error = x }) (sent_once s))
  ]

  abbrev pub max_retry : ℕ
  max_retry = 3

  unfoldable pub retry_send : Notification → Exec State (Unit {0})
  retry_send n s = retry_from max_retry 0 "" n s

  unfoldable pub send_email : String → String → String → Exec State (Unit {0})
  send_email address subject body s =
      if not (is_valid_email (e.bytes address))
      then (err invalid_email, s)
      else (let n = new_notification email (next_id "email" s) address subject body in
          retry_send n (put n (counted s)))

  -- RenderTemplate over the entries of the map in the order in which they are met
  unfoldable pub render_template : String → List (String × String) → String
  render_template tmpl [] = tmpl
  render_template tmpl ((key, value) ∷ data_) = render_template (e.replace tmpl key value) data_

  unfoldable pub send_approval_notification : ℕ → ℕ → String → String → Exec State (Unit {0})
  send_approval_notification user instance_id business_type status =
      send_in_app user
        (render_template "{{.BusinessType}} #{{.InstanceID}} 待审批"
          (("BusinessType", business_type) ∷ ("InstanceID", e.decimal instance_id) ∷ []))
        (e.format_message business_type instance_id status)
