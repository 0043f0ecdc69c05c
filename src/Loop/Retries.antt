-- ===== src/Loop/Retries.antt =====
-- The detector that agent_resilience/api.py and agent_resilience/worker.py build, on a tool that is
-- requested again after it has failed: agent_resilience/runtime.py puts the fingerprint of the
-- unchanged evidence into the progress history at every request.
use agent_resilience_runtime.Prelude.{
  ◌+◌, Eq, ◌≡◌, ◌≢◌, refl, ap, ◌∙◌, none, List, [], ◌∷◌, ◌++◌, length, last_n, drop, length-append,
  drop-append, arith,
}
use agent_resilience_runtime.Loop.{default_detector, reason, new_detector}
use agent_resilience_runtime.Loop.Reason.{reason-none}

-- After four entries of one fingerprint, the last successful call's and those of three requests
-- since, the detector of the default settings stops the agent, whatever tools it has asked for.
pub reason-default_stops :
    {A B : Type 0} ⦃e : Eq A⦄ ⦃f : Eq B⦄
    → (tools : List A) (earlier : List B) (entry : B)
    → reason default_detector tools (earlier ++ entry ∷ entry ∷ entry ∷ entry ∷ []) ≢ none
unfolding new_detector
reason-default_stops tools earlier entry h =
    let progress = earlier ++ entry ∷ entry ∷ entry ∷ entry ∷ [] in
    let long : length progress ≡ length earlier + 4 = length-append earlier _ in
    let tail : last_n 4 progress ≡ entry ∷ entry ∷ entry ∷ entry ∷ [] =
      (ap (λ n. drop n progress) (omega (arith, long)) ∙ drop-append earlier _) in
    ((reason-none 4 20 default_detector tools progress refl).0 h).2 (record {
      enough = omega (arith, long);
      entry = entry;
      same = rw tail (refl, (refl, (refl, (refl, tt))));
    })
