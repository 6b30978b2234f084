-- ===== src/Core/Dispatcher/Stages/Silent.antt =====
-- A summary that the model does not give is not delivered.
use review_agent_v.Prelude.{
  Text, txt, ◌≡◌, ◌≢◌, inl, inr, ◌⊎◌, Option-cases, suc, ◌∙◌, refl, true, false,
}
use review_agent_v.Core.Models.{Session}
use review_agent_v.Core.Enums.{Stage}
use review_agent_v.Core.Storage.Sessions.{get_session, dir, update_session}
use review_agent_v.Core.Storage.Users.{get_user}
use review_agent_v.Core.Storage.Findings.{load_findings}
use review_agent_v.Core.Dispatcher.World.{
  Env, World, Act, content, terminal_failure, other_failure, Reply, ok, llm_failure, exception,
  Outcome, pure, try_llm, chat, ◌>>=◌, ◌>>◌, fail_session,
}
use review_agent_v.Core.Dispatcher.Stages.{
  draft, ended, build_summary, deliver_session, do_build_and_deliver,
}

Reply-cases :
    (r : Reply) → ((t : Text) × (r ≡ content t)) ⊎ ((r ≡ terminal_failure) ⊎ (r ≡ other_failure))
Reply-cases (content t) = inl (t, refl)
Reply-cases terminal_failure = inr (inl refl)
Reply-cases other_failure = inr (inr refl)

-- Between the two worlds no backend of delivery was called, and no delivery was logged.
abbrev pub IsUndelivered : World → World → Type 0
IsUndelivered w w' = (w'.sends ≡ w.sends) × (w'.storage.outbound ≡ w.storage.outbound)

-- The action does not return, and nothing is delivered.
abbrev Fails : {A : Type 0} → World → Outcome A × World → Type 0
Fails w (ok a, w') = ⊥
Fails w (llm_failure, w') = IsUndelivered w w'
Fails w (exception, w') = IsUndelivered w w'

IsUndelivered-fail_session :
    (s : Session) (stage : Stage) (label : Text) (w : World)
    → IsUndelivered w (fail_session s stage label w).1
unfolding fail_session update_session
IsUndelivered-fail_session s stage label w = (refl, refl)

answered-Fails :
    (e : Env) (w : World) {A : Type 0} (f : Text → Act A)
    → ((t : Text) → e.chat w.chats ≢ content t)
    → Fails w ((chat e >>= f) w)
answered-Fails e w f h = elim (Reply-cases (e.chat w.chats)) [
  | inl (t, r) ↦ absurd (h t r)
  | inr (inl r) ↦ rw r (refl, refl)
  | inr (inr r) ↦ rw r (refl, refl)
]

build_summary-Fails :
    (e : Env) (s : Session) (w : World)
    → ((t : Text) → e.chat w.chats ≢ content t)
    → Fails w (build_summary e s w)
unfolding build_summary
build_summary-Fails e s w h = elim (Option-cases (draft (dir s.id w.storage))) [
  | inl d ↦ rw d (refl, refl)
  | inr (text, d) ↦ elim (Option-cases (load_findings (dir s.id w.storage))) [
    | inl l ↦ rw (d, l) (refl, refl)
    | inr (rows, l) ↦ elim (Option-cases (get_user s.responder_oid w.storage)) [
      | inl r ↦ rw (d, l, r) (refl, refl)
      | inr (responder, r) ↦ elim (Option-cases (get_user s.requester_oid w.storage)) [
        | inl q ↦ rw (d, l, r, q) (refl, refl)
        | inr (requester, q) ↦
            rw (d, l, r, q) (answered-Fails e (record w { ticks = suc w.ticks }) _ h)
      ]
    ]
  ]
]

-- `r` is how the summary ended.
summary_handled :
    (s : Session) (r : Outcome (Unit {0}) × World) (w : World) (rest : Act (Unit {0}))
    → Fails w r
    → IsUndelivered w
        (ended
          (try_llm
            (do (λ (v : World). r); pure true)
            (do fail_session s Stage.closing (txt "build_summary"); pure false))
          rest
          w).1
unfolding fail_session
summary_handled s (ok a, w') w rest h = absurd h
summary_handled s (llm_failure, w') w rest h =
    let silent = IsUndelivered-fail_session s Stage.closing (txt "build_summary") w' in
    (silent.0 ∙ h.0, silent.1 ∙ h.1)
summary_handled s (exception, w') w rest h = h

-- Where the model gives no summary, whether it fails for good or in another way, nothing is
-- delivered: no backend is called, and no row is added to the log of deliveries.
pub unanswered_summary_delivers_nothing :
    (e : Env) (sid : Text) (w : World)
    → ((t : Text) → e.chat w.chats ≢ content t)
    → IsUndelivered w (do_build_and_deliver e sid w).1
unfolding do_build_and_deliver
unanswered_summary_delivers_nothing e sid w h = elim (Option-cases (get_session sid w.storage)) [
  | inl n ↦ rw n (refl, refl)
  | inr (s, found) ↦ rw found (
      summary_handled s (build_summary e s w) w (deliver_session e sid)
        (build_summary-Fails e s w h))
]
