-- ===== src/Idempotency/Replay.antt =====
-- src/shared/idempotency/idempotency.interceptor.ts: a request that is sent again.
use mathlib.Core.Path.{subst}
use pureplay_analytics_inges.Prelude.{
  ℕ, ◌≤◌, ◌≡◌, refl, sym, ap, ◌∙◌, inl, inr, Bool, true, false, Option, none, some, List, [], ◌∷◌,
  Text, text_eq, text_eq_refl, text_eq_iff, truthy, ltb, length, arith, Bool-cases, if◌then◌else◌,
}
use pureplay_analytics_inges.Idempotency.{
  Response, Reply, answered, failed, key_too_long, Codec, Request, Entries, build_cache_key,
  is_success, cache_reply, execute_and_cache, after_parse, after_get, with_key, intercept, Call,
  run_all,
}

-- GET of a key returns a text that is read as a response.
abbrev pub IsCached : {B : Type 0} → Codec B → Text → Response B → Entries → Type 0
IsCached codec cache_key r entries =
    (cached : Text) × (entries cache_key ≡ some cached) × (codec.parse cached ≡ some r)

-- A request without failures of Redis, with a key that is not too long.
abbrev pub IsKeyed : Request → Text → Type 0
IsKeyed request key =
    (truthy request.idempotency_key ≡ some key) × (length key ≤ 128) × (request.reads ≡ true)

ltb-not_over : (n m : ℕ) → n ≤ m → ltb m n ≡ false
ltb-not_over n m h = ground arith

text_eq-own : {A : Type 0} (own : Text) (a b : A) → (if text_eq own own then a else b) ≡ a
text_eq-own own a b = rw (text_eq_refl own) refl

answered-injective :
    {B E : Type 0} {q r : Response B} → ◌≡◌ {A = Reply B E} (answered q) (answered r) → q ≡ r
answered-injective h = cc

module _ {B E S : Type 0} (codec : Codec B) where
  cache_reply-other :
      (writes : Bool) (own other : Text) (entries : Entries) (reply : Reply B E) (s : S)
      → text_eq own other ≡ false
      → (cache_reply codec writes own entries (reply, s)).1 other ≡ entries other
  cache_reply-other writes own other entries (answered r) s h = ground arith
  cache_reply-other writes own other entries (failed e) s h = refl
  cache_reply-other writes own other entries key_too_long s h = refl

  after_parse-other :
      (writes : Bool) (own other : Text) (handler : S → Reply B E × S) (entries : Entries) (s : S)
      (o : Option (Response B))
      → text_eq own other ≡ false
      → (after_parse codec writes own handler entries s o).1 other ≡ entries other
  unfolding execute_and_cache
  after_parse-other writes own other handler entries s none h =
      cache_reply-other writes own other entries (handler s).0 (handler s).1 h
  after_parse-other writes own other handler entries s (some r) h = refl

  after_get-other :
      (writes : Bool) (own other : Text) (handler : S → Reply B E × S) (entries : Entries) (s : S)
      (o : Option Text)
      → text_eq own other ≡ false
      → (after_get codec writes own handler entries s o).1 other ≡ entries other
  unfolding execute_and_cache
  after_get-other writes own other handler entries s none h =
      cache_reply-other writes own other entries (handler s).0 (handler s).1 h
  after_get-other writes own other handler entries s (some cached) h =
      after_parse-other writes own other handler entries s (codec.parse cached) h

  after_get-cached :
      (writes : Bool) (own cached : Text) (handler : S → Reply B E × S) (entries : Entries) (s : S)
      (r : Response B)
      → codec.parse cached ≡ some r
      → after_get codec writes own handler entries s (some cached) ≡ (answered r, entries, s)
  after_get-cached writes own cached handler entries s r h =
      ap (after_parse codec writes own handler entries s) h

  after_get-IsCached :
      (writes : Bool) (own other : Text) (handler : S → Reply B E × S) (entries : Entries) (s : S)
      (r : Response B)
      → IsCached codec other r entries
      → IsCached codec other r (after_get codec writes own handler entries s (entries own)).1
  after_get-IsCached writes own other handler entries s r (cached, e, p) =
      elim (Bool-cases (text_eq own other)) [
        | inl same ↦
            let found : entries own ≡ some cached =
              ap entries ((text_eq_iff own other).0 same) ∙ e in
            (
              cached,
              ap (λ o. (after_get codec writes own handler entries s o).1 other) found
                  ∙ ap (λ t. t.1 other) (after_get-cached writes own cached handler entries s r p)
                  ∙ e,
              p,
            )
        | inr differ ↦
            (cached, after_get-other writes own other handler entries s (entries own) differ ∙ e, p)
      ]

  with_key-IsCached :
      (request : Request) (other : Text) (handler : S → Reply B E × S) (entries : Entries) (s : S)
      (r : Response B) (key : Option Text)
      → IsCached codec other r entries
      → IsCached codec other r (with_key codec request handler entries s key).1
  with_key-IsCached request other handler entries s r none h = h
  with_key-IsCached request other handler entries s r (some key) h =
      elim (Bool-cases (ltb 128 (length key))) [
        | inl long ↦ rw long h
        | inr short ↦ elim (Bool-cases request.reads) [
          | inl up ↦
              rw (short, up)
                (after_get-IsCached request.writes (build_cache_key key request.pathname) other
                  handler entries s r h)
          | inr down ↦ rw (short, down) h
        ]
      ]

  run_all-IsCached :
      (calls : List (Call B E S)) (other : Text) (entries : Entries) (s : S) (r : Response B)
      → IsCached codec other r entries
      → IsCached codec other r (run_all codec calls entries s).0
  unfolding run_all intercept
  run_all-IsCached [] other entries s r h = h
  run_all-IsCached (call ∷ calls) other entries s r h =
      let key = truthy call.request.idempotency_key in
      run_all-IsCached calls other (with_key codec call.request call.handler entries s key).1
        (with_key codec call.request call.handler entries s key).2 r
        (with_key-IsCached call.request other call.handler entries s r key h)

  intercept-keyed :
      (request : Request) (key : Text) (handler : S → Reply B E × S) (entries : Entries) (s : S)
      → IsKeyed request key
      → intercept codec request handler entries s
        ≡ after_get codec request.writes
            (build_cache_key key request.pathname)
            handler
            entries
            s
            (entries (build_cache_key key request.pathname))
  unfolding intercept
  intercept-keyed request key handler entries s (e, short, up) =
      let fits = ltb-not_over (length key) 128 short in
      ap (with_key codec request handler entries s) e ∙ rw (fits, up) refl

  intercept-replays :
      (request : Request) (key : Text) (handler : S → Reply B E × S) (entries : Entries) (s : S)
      (r : Response B)
      → IsKeyed request key
      → IsCached codec (build_cache_key key request.pathname) r entries
      → intercept codec request handler entries s ≡ (answered r, entries, s)
  intercept-replays request key handler entries s r keyed (cached, e, p) =
      let cache_key = build_cache_key key request.pathname in
      intercept-keyed request key handler entries s keyed
      ∙ ap (after_get codec request.writes cache_key handler entries s) e
      ∙ after_get-cached request.writes cache_key cached handler entries s r p

  cache_reply-answer :
      (writes : Bool) (own : Text) (entries : Entries) (reply : Reply B E) (s : S)
      → (cache_reply codec writes own entries (reply, s)).0 ≡ reply
  cache_reply-answer writes own entries (answered r) s = refl
  cache_reply-answer writes own entries (failed e) s = refl
  cache_reply-answer writes own entries key_too_long s = refl

  cache_reply-IsCached :
      (own : Text) (entries : Entries) (reply : Reply B E) (s : S) (r : Response B)
      → codec.parse (codec.stringify r) ≡ some r
      → reply ≡ answered r
      → is_success r.status ≡ true
      → IsCached codec own r (cache_reply codec true own entries (reply, s)).1
  cache_reply-IsCached own entries (answered q) s r round e good =
      let same : q ≡ r = answered-injective e in
      (
        codec.stringify r,
        rw (same, good) (text_eq-own own (some (codec.stringify r)) (entries own)),
        round,
      )
  cache_reply-IsCached own entries (failed x) s r round e good = absurd (cc e)
  cache_reply-IsCached own entries key_too_long s r round e good = absurd (cc e)

  after_parse-caches :
      (own cached : Text) (handler : S → Reply B E × S) (entries : Entries) (s : S) (r : Response B)
      (o : Option (Response B))
      → codec.parse (codec.stringify r) ≡ some r
      → entries own ≡ some cached
      → codec.parse cached ≡ o
      → (after_parse codec true own handler entries s o).0 ≡ answered r
      → is_success r.status ≡ true
      → IsCached codec own r (after_parse codec true own handler entries s o).1
  unfolding execute_and_cache
  after_parse-caches own cached handler entries s r none round found p e good =
      cache_reply-IsCached own entries (handler s).0 (handler s).1 r round
        (sym (cache_reply-answer true own entries (handler s).0 (handler s).1) ∙ e) good
  after_parse-caches own cached handler entries s r (some q) round found p e good =
      (cached, found, p ∙ ap some (answered-injective e))

  after_get-caches :
      (own : Text) (handler : S → Reply B E × S) (entries : Entries) (s : S) (r : Response B)
      (o : Option Text)
      → codec.parse (codec.stringify r) ≡ some r
      → entries own ≡ o
      → (after_get codec true own handler entries s o).0 ≡ answered r
      → is_success r.status ≡ true
      → IsCached codec own r (after_get codec true own handler entries s o).1
  unfolding execute_and_cache
  after_get-caches own handler entries s r none round found e good =
      cache_reply-IsCached own entries (handler s).0 (handler s).1 r round
        (sym (cache_reply-answer true own entries (handler s).0 (handler s).1) ∙ e) good
  after_get-caches own handler entries s r (some cached) round found e good =
      after_parse-caches own cached handler entries s r (codec.parse cached) round found refl e good

  -- Once a request with a key of at most 128 code units was answered with a 2xx status, and
  -- Redis took the SET, a request of the same key and path gets that answer and its handler
  -- does not run, whatever requests were worked off between, each after the other. It is
  -- assumed that Redis answers the GETs of these two, that no entry expires, and that the
  -- cached text is parsed as the response that was written.
  pub intercept-run_all :
      (key : Text) (first again : Call B E S) (between : List (Call B E S)) (entries : Entries)
      (s : S) (r : Response B)
      → codec.parse (codec.stringify r) ≡ some r
      → IsKeyed first.request key
      → IsKeyed again.request key
      → first.request.pathname ≡ again.request.pathname
      → first.request.writes ≡ true
      → (intercept codec first.request first.handler entries s).0 ≡ answered r
      → is_success r.status ≡ true
      → let (entries', s') = run_all codec (first ∷ between) entries s in
        intercept codec again.request again.handler entries' s' ≡ (answered r, entries', s')
  unfolding run_all
  intercept-run_all key first again between entries s r round keyed keyed' path writes e good =
      let own = build_cache_key key first.request.pathname in
      let run : intercept codec first.request first.handler entries s
          ≡ after_get codec true own first.handler entries s (entries own) =
        intercept-keyed first.request key first.handler entries s keyed
        ∙ ap (λ w. after_get codec w own first.handler entries s (entries own)) writes in
      let cached =
        subst (λ t. IsCached codec own r t.1) (sym run)
          (after_get-caches own first.handler entries s r (entries own) round refl
            (sym (ap (λ t. t.0) run) ∙ e) good) in
      let (_, entries', s') = intercept codec first.request first.handler entries s in
      let (entries'', s'') = run_all codec between entries' s' in
      intercept-replays again.request key again.handler entries'' s'' r keyed' (
        subst (λ p. IsCached codec (build_cache_key key p) r entries'') path
          (run_all-IsCached between own entries' s' r cached))
