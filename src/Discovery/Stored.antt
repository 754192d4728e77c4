-- ===== src/Discovery/Stored.antt =====
-- internal/discovery/action.go: what a new action writes.
use dating_app_backend.Prelude.{
  ℕ, ◌≡◌, refl, sym, ap, inl, inr, Bool, false, not, ◌&&◌, Option, none, some, is_some, List, ◌∷◌,
  ◌>>=◌, Outcome, done, failed, Bool-cases, find_first, if◌then◌else◌, subst, bind-done, exec-done,
  exec,
}
use dating_app_backend.Store.{Db, FeatureUsage, is_pair, ordered_pair}
use dating_app_backend.Discovery.Model.{
  DiscoveryError, database, NormalizedActionRequest, Recorded, Target, ActionUsageLimiter,
  is_positive, likes, active_match_for_pair, response_of, consume_usage, put_usage,
}
use dating_app_backend.Discovery.Matching.{
  Site, new_match, insert_action, find_reciprocal, respond_tx,
}
use dating_app_backend.Discovery.Actions.{
  Drawn, new_action, insert_new_action, match_if_mutual, match_if_positive, count_usage, respond,
  store_action,
}
use dating_app_backend.Discovery.Effect.{ensure_match-done}

pure-done {ℓ} :
    {A : Type ℓ} (a : A) (s : Db) {a' : A} {s' : Db}
    → ◌≡◌ {A = Outcome DiscoveryError Db A} (done a s) (done a' s')
    → (a' ≡ a) × (s' ≡ s)
pure-done a s h = (cc, cc)

consume-done :
    (limiter : Option ActionUsageLimiter) (db db' : Db) (user date : ℕ) (t : _)
    → consume_usage limiter user t date db ≡ done tt db'
    → (u : List FeatureUsage) × (db' ≡ record db { usage = u })
consume-done none db db' user date t h = (db.usage, cc)
consume-done (some limiter) db db' user date t h = go (limiter.consume user t date db.usage) h
  where
    go :
        (o : _)
        → put_usage db o ≡ done tt db'
        → (u : List FeatureUsage) × (db' ≡ record db { usage = u })
    go (done tt u) e = (u, cc)
    go (failed e u) k = cc

module _ (faults : Site → Bool) (limiter : Option ActionUsageLimiter) (drawn : Drawn) (actor : ℕ)
    (req : NormalizedActionRequest) (target : Target) where
  -- Whether the transaction adds a match: a positive action, answered by one, of a pair with none.
  abbrev pub makes_match : Db → Bool
  makes_match db =
      let pair = ordered_pair actor target.target_user_id in
      is_positive req.action_type
      && (likes target.target_user_id actor (insert_new_action actor target req drawn db)
          && not (is_some (find_first (is_pair pair.0 pair.1) db.matches)))

  -- What a good end of the transaction has written for a new action.
  pub record Stored (db db' : Db) (r : Recorded) : Type 0 where
    pub action_added : db'.actions ≡ new_action db.next_action actor target req drawn ∷ db.actions
    pub match_added : db'.matches ≡ (
        let pair = ordered_pair actor target.target_user_id in
        if makes_match db
        then new_match db.next_match drawn.match_uuid pair.0 pair.1 actor drawn.now ∷ db.matches
        else db.matches)
    pub notified : r.new_match_uuid ≡ (if makes_match db then some drawn.match_uuid else none)
    pub answered :
        r.response
        ≡ response_of req.action_type (active_match_for_pair actor target.target_user_id db')

  abbrev pub answer_in : Option ℕ → Db → Recorded
  answer_in new db' = record {
    response = response_of req.action_type (active_match_for_pair actor target.target_user_id db');
    new_match_uuid = new;
  }

  unmatched_store :
      (db db' : Db) (new : Option ℕ)
      → makes_match db ≡ false
      → (new ≡ none) × (db' ≡ insert_new_action actor target req drawn db)
      → Stored db db' (answer_in new db')
  unmatched_store db db' new m k = record {
    action_added = ap (λ (s : Db). s.actions) k.1;
    match_added = rw m (ap (λ (s : Db). s.matches) k.1);
    notified = rw m k.0;
    answered = refl;
  }

  match_if_positive-done :
      (db db' : Db) (new : Option ℕ)
      → match_if_positive faults limiter drawn actor req target
          (insert_new_action actor target req drawn db)
        ≡ done new db'
      → Stored db db' (answer_in new db')
  unfolding match_if_mutual
  match_if_positive-done db db' new h = elim (Bool-cases (is_positive req.action_type)) [
    | inr p ↦
        let k = pure-done none (insert_new_action actor target req drawn db) (rw (p, ◌>>=◌) at h) in
        unmatched_store db db' new (rw p refl) k
    | inl p ↦ elim (Bool-cases (faults find_reciprocal)) [
      | inl f ↦ cc
      | inr f ↦
          elim (Bool-cases
            (likes target.target_user_id actor (insert_new_action actor target req drawn db))) [
              | inr l ↦
                  let k =
                    pure-done none (insert_new_action actor target req drawn db)
                      (rw (p, f, l, match_if_mutual, ◌>>=◌) at h) in
                  unmatched_store db db' new (rw (l, p) refl) k
              | inl l ↦
                  let pair = ordered_pair actor target.target_user_id in
                  let e =
                    ensure_match-done faults drawn.match_uuid drawn.conversation_uuid pair.0 pair.1
                      actor drawn.now (insert_new_action actor target req drawn db) db' new
                      (rw (p, f, l, match_if_mutual, ◌>>=◌) at h) in
                  elim (Bool-cases (is_some (find_first (is_pair pair.0 pair.1) db.matches))) [
                    | inl b ↦ record {
                      action_added = e.actions_kept;
                      match_added = rw (l, p, b) (rw b at e.match_added);
                      notified = rw (l, p, b) (rw b at e.new_uuid);
                      answered = refl;
                    }
                    | inr b ↦ record {
                      action_added = e.actions_kept;
                      match_added = rw (l, p, b) (rw b at e.match_added);
                      notified = rw (l, p, b) (rw b at e.new_uuid);
                      answered = refl;
                    }
                  ]
            ]
    ]
  ]

  count_usage-done :
      (db s : Db) (u : Unit {0})
      → count_usage faults limiter drawn actor req db ≡ done u s
      → (w : List FeatureUsage) × (s ≡ record db { usage = w })
  count_usage-done db s u h = elim (Bool-cases (is_positive req.action_type)) [
    | inl p ↦ consume-done limiter db s actor drawn.action_date req.action_type (rw p at h)
    | inr p ↦ (db.usage, (pure-done tt db (rw p at h)).1)
  ]

  respond-done :
      (new : Option ℕ) (s db' : Db) (r : Recorded)
      → respond (faults respond_tx) new req.action_type actor target.target_user_id s ≡ done r db'
      → (r ≡ answer_in new s) × (db' ≡ s)
  respond-done new s db' r h = elim (Bool-cases (faults respond_tx)) [
    | inl f ↦ cc
    | inr f ↦ pure-done (answer_in new s) s (rw (f, ◌>>=◌) at h)
  ]

  kept_usage :
      (db db' : Db) (r : Recorded) (w : List FeatureUsage)
      → Stored (record db { usage = w }) db' r
      → Stored db db' r
  kept_usage db db' r w k = record {
    action_added = k.action_added;
    match_added = k.match_added;
    notified = k.notified;
    answered = k.answered;
  }

  -- A new action is stored with the match that it completes, and the answer is the state after.
  pub store_action-done :
      (db db' : Db) (r : Recorded)
      → store_action faults limiter drawn actor req target db ≡ done r db'
      → Stored db db' r
  unfolding store_action
  store_action-done db db' r h =
      let (u, s₁, e₁, h₁) = bind-done (count_usage faults limiter drawn actor req) _ db h in
      let (v, s₂, e₂, h₂) =
        bind-done (exec (faults insert_action) database (insert_new_action actor target req drawn))
          _ s₁ h₁ in
      let (new, s₃, e₃, h₃) =
        bind-done (match_if_positive faults limiter drawn actor req target) _ s₂ h₂ in
      let (w, c) = count_usage-done db s₁ u e₁ in
      let i =
        exec-done (faults insert_action) database (insert_new_action actor target req drawn) s₁
          e₂ in
      let k = match_if_positive-done s₁ s₃ new (
        subst (λ s. match_if_positive faults limiter drawn actor req target s ≡ done new s₃) i
          e₃) in
      let (a, d) = respond-done new s₃ db' r h₃ in
      kept_usage db db' r w (
        subst (λ s. Stored s db' r) c
          (subst (λ s. Stored s₁ s r) (sym d) (subst (Stored s₁ s₃) (sym a) k)))
