-- ===== src/Notification/Examples.antt =====
-- A mail server that fails twice, and the theorems of the notification service at it.
use suzuran.Prelude.{ℕ, ◌<◌, ◌≡◌, ◌⊎◌, refl, none, some, [], ◌∷◌, ltb, if◌then◌else◌}
use suzuran.Prelude.Result.{ok}
use suzuran.Notification.{
  Env, State, Notification, email, delivered, new_notification, get_notification,
  get_delivery_status, is_valid_email, retry_from, retry_send, send_email,
}
use suzuran.Notification.Delivery.{IsDelivered, IsGivenUp, retry_send-delivers}

abbrev env : Env
env = record {
  deliver = λ n user title message. some "offline";
  send = λ n to subject body. if ltb n 2 then some "busy" else none;
  clock = λ n. n;
  format_id = λ prefix time n. prefix;
  decimal = λ n. "7";
  replace = λ t key value. t;
  format_message = λ kind n status. kind;
  bytes = λ t. b'a' ∷ b'@' ∷ b'b' ∷ b'.' ∷ b'c' ∷ b'd' ∷ [];
}

abbrev empty : State
empty = record { store = []; id_counter = 0; deliveries = 0; sends = 0 }

-- The third attempt reaches the server.
delivers :
    let out = send_email env "a@b.cd" "hello" "world" empty in
    (out.0 ≡ ok tt) × (get_delivery_status "email" out.1 ≡ some delivered) × (out.1.sends ≡ 3)
unfolding send_email is_valid_email retry_send retry_from get_delivery_status get_notification
delivers = (refl, refl, refl)

abbrev mail : Notification
mail = new_notification env email "email" "a@b.cd" "hello" "world"

retry_send-delivers_example :
    ((k : ℕ) × (k < 3) × IsDelivered env mail 0 empty k (retry_send env mail empty))
    ⊎ IsGivenUp env mail 0 "" empty 3 (retry_send env mail empty)
retry_send-delivers_example = retry_send-delivers env mail empty refl
