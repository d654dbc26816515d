-- ===== src/Examples/Again.antt =====
-- A link that is sent twice with one Idempotency-Key, and another request between.
use pureplay_analytics_inges.Prelude.{
  ℕ, ◌+◌, ◌≡◌, refl, true, Option, none, some, [], ◌∷◌, Text, codes, truthy, arith,
}
use pureplay_analytics_inges.Idempotency.{
  Response, Reply, answered, Codec, Entries, Call, intercept, run_all, execute_and_cache,
}
use pureplay_analytics_inges.Idempotency.Replay.{intercept-run_all}

abbrev to_text : Response ℕ → Text
to_text r = r.status ∷ r.body ∷ []

abbrev of_text : Text → Option (Response ℕ)
of_text (a ∷ b ∷ []) = some (record { status = a; body = b })
of_text t = none

abbrev pair_codec : Codec ℕ
pair_codec = record { stringify = to_text; parse = of_text }

-- The handler counts its runs, and answers 201 with their number.
abbrev count_run : ℕ → Reply ℕ ℕ × ℕ
count_run s = (answered (record { status = 201; body = s + 1 }), s + 1)

abbrev link_call : Option Text → Call ℕ ℕ ℕ
link_call key = record {
  request = record { idempotency_key = key; pathname = codes "/link"; reads = true; writes = true };
  handler = count_run;
}

abbrev nothing_cached : Entries
nothing_cached key = none

intercept-run_all_example :
    let (entries, runs) =
      run_all pair_codec (link_call (some (codes "k")) ∷ link_call none ∷ []) nothing_cached 0 in
    intercept pair_codec (link_call (some (codes "k"))).request count_run entries runs
    ≡ (answered (record { status = 201; body = 1 }), entries, runs)
unfolding run_all intercept execute_and_cache truthy
intercept-run_all_example =
    intercept-run_all pair_codec (codes "k") (link_call (some (codes "k")))
      (link_call (some (codes "k"))) (link_call none ∷ []) nothing_cached 0
      (record { status = 201; body = 1 }) refl (refl, ground arith, refl) (refl, ground arith, refl)
      refl refl refl refl
