-- ===== src/Server/Refused/Routes.antt =====
-- The routes with one load: an error answer leaves every job as the load left it.
use mathlib.Core.Path.{subst}
use freeagents.Base.{◌≡◌, refl, ◌∙◌, ◌⊎◌, inl, inr, not, List, Result, Option, none, some}
use freeagents.Base.Text.{Text}
use freeagents.Job.Model.{Party, Job, JobFault}
use freeagents.Server.Ports.{State, Request, Ports, Failure, bad_price_body, Success}
use freeagents.Server.Route.{Reply, sent, value, Route, ◌>>=◌, error, pure, or_send}
use freeagents.Server.Post.{
  Post, is_sent, is_value, bind-Post, weaken-Post, pure-Post, or_send-Post, if-Post,
}
use freeagents.Server.Clocks.{Loaded, load_for_exchange}
use freeagents.Server.Exchange.{Gate, require_signed_party, no_hook, gated, run_party_exchange}
use freeagents.Server.Reads.{ReadsOnly, or_send-ReadsOnly, ask-ReadsOnly, now-ReadsOnly}
use freeagents.Server.Reads.Guards.{
  guard_rules, party-ReadsOnly, negotiation-ReadsOnly, gate-ReadsOnly, paid-ReadsOnly,
}
use freeagents.Server.Refused.{Refuses, reads-Post, after-Refuses, persist-Refuses, apply-Refuses}
use freeagents.Server.Refused.Hooks.{no_hook-Silent, quote-Silent, message-Silent}
use freeagents.Server.Work.{
  redo_route, cited_close_route, staged_decline_route, stage_route, redo_refuse_route,
}
use freeagents.Server.Terms.{
  criteria_route, decline_route, withdraw_route, CriteriaBody, price_of_body, Field, read_price,
  is_price_named,
}
use freeagents.Server.Reads.Checks.{
  decline_held-ReadsOnly, settled-ReadsOnly, transition-ReadsOnly, floor-ReadsOnly,
  commit-ReadsOnly, or_thrown-ReadsOnly, attest-ReadsOnly,
}
use freeagents.Base.Number.{Number}

module _ (ports : Ports) (id : Text) where
  -- the rows behind a load, answered or not
  pub loaded_rows : State → List (Text × Job)
  loaded_rows s = (load_for_exchange ports id s).1.rows

  -- a route whose error answers leave the rows as they were, or as its load left them
  pub record AsLoaded (m : Route Success) : Type 0 where
    pub at :
        (s : State)
        → Post
            (λ f s'. (s'.rows ≡ s.rows) ⊎ (s'.rows ≡ (load_for_exchange ports id s).1.rows))
            (λ a s'. Unit {0})
            (m s)

  load-Post :
      (s : State)
      → Post
          (λ f s'. s'.rows ≡ (load_for_exchange ports id s).1.rows)
          (λ l s'. s'.rows ≡ (load_for_exchange ports id s).1.rows)
          (load_for_exchange ports id s)
  load-Post s = let (r, s') = load_for_exchange ports id s in same-Post r s'
    where
      same-Post :
          (r : Reply Loaded) (t : State)
          → Post (λ f s'. s'.rows ≡ t.rows) (λ l s'. s'.rows ≡ t.rows) (r, t)
      same-Post (sent f) t = is_sent f t refl
      same-Post (value l) t = is_value l t refl

  pub load-AsLoaded :
      (next : Loaded → Route Success)
      → ((l : Loaded) → Refuses (next l))
      → AsLoaded (load_for_exchange ports id >>= next)
  load-AsLoaded next kn = record {
    at = λ s.
        bind-Post (load_for_exchange ports id) next s
          (weaken-Post (load-Post s) (λ f s' e. inr e) (λ l s' e. e))
          λ l s' e. weaken-Post ((kn l).at s') (λ f t d. inr (d ∙ e)) (λ a t u. tt);
  }

  gated-ReadsOnly :
      (who : Request) (allowed : List Party) (l : Loaded) → ReadsOnly (gated ports who allowed l)
  gated-ReadsOnly who allowed l = search guard_rules

  pub gate-AsLoaded :
      (who : Request) (allowed : List Party) (next : Gate → Route Success)
      → ((gate : Gate) → Refuses (next gate))
      → AsLoaded (require_signed_party ports id who allowed >>= next)
  unfolding require_signed_party
  gate-AsLoaded who allowed next kn = record {
    at = λ s.
        bind-Post (require_signed_party ports id who allowed) next s
          (bind-Post (load_for_exchange ports id) _ s
            (weaken-Post (load-Post s) (λ f s' e. inr e) (λ l s' e. e))
            λ l s' e.
              weaken-Post
                (reads-Post (gated ports who allowed l) _ s' (gated-ReadsOnly who allowed l) e)
                (λ f t d. inr d) (λ g t d. d))
          λ gate s' e. weaken-Post ((kn gate).at s') (λ f t d. inr (d ∙ e)) (λ a t u. tt);
  }

  -- behind a guard that leaves the rows alone
  pub guard-AsLoaded :
      {A : Type 0} (call : Route A) (next : A → Route Success)
      → ((s : State) → Post (λ f s'. s'.rows ≡ s.rows) (λ a s'. s' ≡ s) (call s))
      → ((a : A) → AsLoaded (next a))
      → AsLoaded (call >>= next)
  guard-AsLoaded call next k kn = record {
    at = λ s. bind-Post call next s (weaken-Post (k s) (λ f s' e. inl e) (λ a s' e. e)) λ a s' e.
        subst
          (λ (t : State).
            Post (λ f s'. (s'.rows ≡ t.rows) ⊎ (s'.rows ≡ (load_for_exchange ports id t).1.rows))
              (λ a s'. Unit {0}) (next a s'))
          e ((kn a).at s');
  }

  or_send-Same :
      {A : Type 0} (f : Failure) (o : Option A) (s : State)
      → Post (λ g s'. s'.rows ≡ s.rows) (λ a s'. s' ≡ s) (or_send f o s)
  or_send-Same f o s = or_send-Post f o s refl (λ a e. refl)

  price-Same :
      (body : CriteriaBody) (s : State)
      → Post (λ g s'. s'.rows ≡ s.rows) (λ a s'. s' ≡ s) (price_of_body body s)
  price-Same body s =
      if-Post (not (is_price_named body)) (pure none)
        (or_send (error 400 bad_price_body) (read_price body) >>= λ price. pure (some price)) s
        (λ e. pure-Post none s refl)
        λ e.
          bind-Post (or_send (error 400 bad_price_body) (read_price body)) _ s
            (or_send-Same _ (read_price body) s) λ price s' k. pure-Post (some price) s' k

  pub party_exchange-AsLoaded :
      (who : Request) (apply : Job → Party → Result JobFault Job)
      → AsLoaded (run_party_exchange ports id who apply)
  unfolding run_party_exchange
  party_exchange-AsLoaded who apply = load-AsLoaded _ λ l.
      after-Refuses _ _ (party-ReadsOnly ports who l.job) λ gate.
        after-Refuses _ _ (negotiation-ReadsOnly ports l.job gate)
          λ u. apply-Refuses ports l.job _ none no_hook (no_hook-Silent ports)

  pub criteria-AsLoaded :
      (who : Request) (body : CriteriaBody) → AsLoaded (criteria_route ports id who body)
  unfolding criteria_route
  criteria-AsLoaded who body = guard-AsLoaded _ _ (or_send-Same _ body.criteria) λ input.
      guard-AsLoaded _ _ (price-Same body) λ price. load-AsLoaded _ λ l.
        after-Refuses _ _ (party-ReadsOnly ports who l.job) λ gate.
          after-Refuses _ _ (negotiation-ReadsOnly ports l.job gate) λ u.
            after-Refuses _ _ (settled-ReadsOnly ports l.job _) λ settled.
              after-Refuses _ _ (floor-ReadsOnly ports l.job price)
                λ v. apply-Refuses ports l.job _ none _ (quote-Silent ports gate price)

  pub withdraw-AsLoaded : (who : Request) → AsLoaded (withdraw_route ports id who)
  unfolding withdraw_route
  withdraw-AsLoaded who = gate-AsLoaded who _ _ λ gate.
      after-Refuses _ _ (settled-ReadsOnly ports gate.loaded.job _)
        λ settled. apply-Refuses ports gate.loaded.job _ none no_hook (no_hook-Silent ports)

  pub decline-AsLoaded : (who : Request) → AsLoaded (decline_route ports id who)
  unfolding decline_route
  decline-AsLoaded who = gate-AsLoaded who _ _ λ gate.
      after-Refuses _ _ (negotiation-ReadsOnly ports gate.loaded.job gate.acting) λ u.
        after-Refuses _ _ (gate-ReadsOnly ports _ _) λ settled.
          after-Refuses _ _ (decline_held-ReadsOnly ports gate.loaded.job settled)
            λ v. apply-Refuses ports gate.loaded.job _ none no_hook (no_hook-Silent ports)

  pub stage-AsLoaded :
      (who : Request) (commit : Field Text) → AsLoaded (stage_route ports id who commit)
  unfolding stage_route
  stage-AsLoaded who field = gate-AsLoaded who _ _ λ gate.
      after-Refuses _ _ (or_send-ReadsOnly _ _) λ commit.
        after-Refuses _ _ (transition-ReadsOnly _) λ u.
          after-Refuses _ _ (or_send-ReadsOnly _ _) λ staging.
            after-Refuses _ _ (ask-ReadsOnly _ _) λ row.
              after-Refuses _ _ (or_send-ReadsOnly _ _) λ login.
                after-Refuses _ _ (commit-ReadsOnly ports _ _ login commit) λ v.
                  after-Refuses _ _ (now-ReadsOnly ports) λ time.
                    after-Refuses _ _ (or_thrown-ReadsOnly _) λ next.
                      after-Refuses _ _ (attest-ReadsOnly ports gate.loaded.job _ _ _ _ next)
                        λ w. persist-Refuses ports next _ λ row. message-Silent ports _ _

  pub staged_decline-AsLoaded : (who : Request) → AsLoaded (staged_decline_route ports id who)
  unfolding staged_decline_route
  staged_decline-AsLoaded who = gate-AsLoaded who _ _ λ gate.
      after-Refuses _ _ (paid-ReadsOnly ports gate.loaded.job _)
        λ u. apply-Refuses ports gate.loaded.job _ none no_hook (no_hook-Silent ports)

  pub redo-AsLoaded :
      (who : Request) (index : Field Number) → AsLoaded (redo_route ports id who index)
  unfolding redo_route
  redo-AsLoaded who field = gate-AsLoaded who _ _ λ gate.
      after-Refuses _ _ (or_send-ReadsOnly _ _) λ index.
        after-Refuses _ _ (paid-ReadsOnly ports gate.loaded.job _) λ u.
          after-Refuses _ _ (now-ReadsOnly ports)
            λ time. apply-Refuses ports gate.loaded.job _ none no_hook (no_hook-Silent ports)

  pub redo_refuse-AsLoaded : (who : Request) → AsLoaded (redo_refuse_route ports id who)
  unfolding redo_refuse_route
  redo_refuse-AsLoaded who = gate-AsLoaded who _ _ λ gate.
      after-Refuses _ _ (now-ReadsOnly ports)
        λ time. apply-Refuses ports gate.loaded.job _ none no_hook (no_hook-Silent ports)

  pub cited_close-AsLoaded :
      (who : Request) (index : Field Number) (reason : Field Text)
      → AsLoaded (cited_close_route ports id who index reason)
  unfolding cited_close_route
  cited_close-AsLoaded who index_field reason_field = gate-AsLoaded who _ _ λ gate.
      after-Refuses _ _ (or_send-ReadsOnly _ _) λ index.
        after-Refuses _ _ (or_send-ReadsOnly _ _) λ reason.
          after-Refuses _ _ (now-ReadsOnly ports)
            λ time. apply-Refuses ports gate.loaded.job _ _ no_hook (no_hook-Silent ports)
