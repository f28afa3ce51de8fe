-- ===== src/Notification/Delivery.antt =====
-- How backend/internal/service/notification_service.go delivers and what it keeps of it.
use suzuran.Prelude.{
  ℕ, zero, suc, ◌+◌, ◌<◌, ◌≡◌, ◌≢◌, ◌⊎◌, inl, inr, refl, String, none, some, str_eq_refl, arith,
  Option-cases,
}
use suzuran.Prelude.Error.{retries_exhausted, undelivered}
use suzuran.Prelude.Result.{Result, ok, err}
use suzuran.Notification.{
  Env, State, Notification, failed, delivered, retrying, in_app, put, counted, next_id,
  new_notification, get_notification, retry_from, retry_send, send_in_app, sent_once,
}

get_notification-put : (n : Notification) (s : State) → get_notification n.id (put n s) ≡ some n
unfolding get_notification
get_notification-put n s = ground (arith, str_eq_refl n.id)

plus_zero : (n : ℕ) → n + 0 ≡ n
plus_zero n = omega arith

plus_suc : (n k : ℕ) → n + suc k ≡ suc n + k
plus_suc n k = omega arith

module _ (e : Env) (n : Notification) where
  -- the attempts numbered from `first`, `count` of them, all failed
  abbrev pub AllFail : ℕ → ℕ → Type 0
  AllFail first zero = Unit
  AllFail first (suc count) =
      (e.send first n.recipient n.title n.body ≢ none) × AllFail (suc first) count

  -- after `done` attempts, `k` more failed and the next one succeeded: the store holds the notification as delivered
  pub record IsDelivered (done : ℕ) (s : State) (k : ℕ) (out : Result (Unit {0}) × State)
      : Type 0 where
    pub reports : out.0 ≡ ok tt
    pub earlier : AllFail s.sends k
    pub last : e.send (s.sends + k) n.recipient n.title n.body ≡ none
    pub used : out.1.sends ≡ s.sends + suc k
    pub kept : Notification
    pub stored : get_notification n.id out.1 ≡ some kept
    pub status : kept.status ≡ delivered
    pub attempts : kept.attempts ≡ done + suc k

  -- the error of the last of `count` attempts numbered from `first`, or the earlier one without any
  abbrev pub LastError : String → ℕ → ℕ → String → Type 0
  LastError last first zero reason = reason ≡ last
  LastError last first (suc count) reason =
      e.send (first + count) n.recipient n.title n.body ≡ some reason

  LastError-next :
      (x last : String) (first count : ℕ) (reason : String)
      → e.send first n.recipient n.title n.body ≡ some x
      → LastError x (suc first) count reason
      → LastError last first (suc count) reason
  LastError-next x last first zero reason q h = rw (plus_zero first, h) q
  LastError-next x last first (suc count) reason q h = rw (plus_suc first count) h

  -- after `done` attempts, the last of which gave `last`, `count` more failed: the store holds the notification as failed
  pub record IsGivenUp (done : ℕ) (last : String) (s : State) (count : ℕ)
      (out : Result (Unit {0}) × State) : Type 0 where
    pub reason : String
    pub reports : out.0 ≡ err (retries_exhausted reason)
    pub of_last : LastError last s.sends count reason
    pub all : AllFail s.sends count
    pub used : out.1.sends ≡ s.sends + count
    pub kept : Notification
    pub stored : get_notification n.id out.1 ≡ some kept
    pub status : kept.status ≡ failed
    pub attempts : kept.attempts ≡ done + count
    pub same_reason : kept.last_error ≡ reason

module _ (e : Env) where
  retry_from-outcome :
      (left done : ℕ) (last : String) (n : Notification) (s : State)
      → n.attempts ≡ done
      → ((k : ℕ) × (k < left) × IsDelivered e n done s k (retry_from e left done last n s))
        ⊎ IsGivenUp e n done last s left (retry_from e left done last n s)
  unfolding retry_from
  retry_from-outcome zero done last n s h = inr (record {
    reason = last;
    reports = refl;
    of_last = refl;
    all = tt;
    used = omega arith;
    kept = record n { status = failed; last_error = last };
    stored = get_notification-put (record n { status = failed; last_error = last }) s;
    status = refl;
    attempts = omega arith;
    same_reason = refl;
  })
  retry_from-outcome (suc left) done last n s h =
      elim (Option-cases (e.send s.sends n.recipient n.title n.body)) [
        | inl q ↦
            rw (q, retry_from)
              (inl (
                0,
                omega arith,
                record {
                  reports = refl;
                  earlier = tt;
                  last = rw (plus_zero s.sends) q;
                  used = omega arith;
                  kept = record n { attempts = suc done; status = delivered };
                  stored =
                      get_notification-put (record n { attempts = suc done; status = delivered })
                        (sent_once e s);
                  status = refl;
                  attempts = omega arith;
                },
              ))
        | inr (x, q) ↦
            let m = record n { attempts = suc done; status = retrying; last_error = x } in
            let fails : e.send s.sends n.recipient n.title n.body ≢ none = λ r. ground arith in
            rw (q, retry_from)
              (elim (retry_from-outcome left (suc done) x m (put m (sent_once e s)) refl) [
                | inl (k, lt, d) ↦ inl (
                  suc k,
                  omega arith,
                  record {
                    reports = d.reports;
                    earlier = (fails, d.earlier);
                    last = rw (plus_suc s.sends k) d.last;
                    used = omega (arith, d.used);
                    kept = d.kept;
                    stored = d.stored;
                    status = d.status;
                    attempts = omega (arith, d.attempts);
                  },
                )
                | inr d ↦ inr (record {
                  reason = d.reason;
                  reports = d.reports;
                  of_last = LastError-next e n x last s.sends left d.reason q d.of_last;
                  all = (fails, d.all);
                  used = omega (arith, d.used);
                  kept = d.kept;
                  stored = d.stored;
                  status = d.status;
                  attempts = omega (arith, d.attempts);
                  same_reason = d.same_reason;
                })
              ])
      ]

  -- retrySend of a new notification tries three times at most: it reports success exactly when one
  -- of these attempts succeeds, makes none after that, and the store then holds the notification as
  -- delivered with the number of attempts; otherwise it reports the error of the third attempt, and the store holds
  -- the notification as failed after three attempts.
  pub retry_send-delivers :
      (n : Notification) (s : State)
      → n.attempts ≡ 0
      → ((k : ℕ) × (k < 3) × IsDelivered e n 0 s k (retry_send e n s))
        ⊎ IsGivenUp e n 0 "" s 3 (retry_send e n s)
  unfolding retry_send
  retry_send-delivers n s new = retry_from-outcome 3 0 "" n s new

  -- SendInApp delivers once. The store then holds the notification as delivered, and the call
  -- succeeds, or as failed with the channel's error, which the call returns.
  pub send_in_app_tracks :
      (user : ℕ) (title message : String) (s : State)
      → ((send_in_app e user title message s).0 ≡ ok tt)
          × ((n : Notification) × (get_notification
                  (next_id e "inapp" s)
                  (send_in_app e user title message s).1
                ≡ some n)
              × (n.status ≡ delivered))
        ⊎ ((x : String) × ((send_in_app e user title message s).0 ≡ err (undelivered x))
            × ((n : Notification) × (get_notification
                    (next_id e "inapp" s)
                    (send_in_app e user title message s).1
                  ≡ some n)
                × (n.status ≡ failed)
                × (n.last_error ≡ x)))
  unfolding send_in_app
  send_in_app_tracks user title message s =
      let n = new_notification e in_app (next_id e "inapp" s) (e.decimal user) title message in
      let t = put n (counted e s) in
      let called = record t { deliveries = suc t.deliveries } in
      elim (Option-cases (e.deliver t.deliveries user title message)) [
        | inl q ↦ rw q (
            inl (
              refl,
              (
                record n { status = delivered },
                get_notification-put (record n { status = delivered }) called,
                refl,
              ),
            ))
        | inr (x, q) ↦ rw q (
            inr (
              x,
              refl,
              (
                record n { status = failed; last_error = x },
                get_notification-put (record n { status = failed; last_error = x }) called,
                refl,
                refl,
              ),
            ))
      ]
