-- ===== src/Opscloud/Retry.antt =====
-- How often `doPost` tries.
use altershield_operator.Base.{
  String, ℕ, zero, suc, ◌+◌, ◌≤◌, ◌<◌, ◌≡◌, ◌≢◌, refl, arith, length, List, ◌∷◌, if◌then◌else◌, leb,
  Bool-cases, inl, inr, ◌⊎◌, ◌∙◌,
}
use altershield_operator.Exec.{
  World, Exec, Reply, ask, continue, Error, ok, err, panic, ◌>>=◌, Outcome, done, failed,
  Reply-cases,
}
use altershield_operator.Client.{Client, Selector}
use altershield_operator.Calls.{Call, post}
use altershield_operator.Types.Opscloud.{Request, OpsCloudResult}
use altershield_operator.Opscloud.{post_loop, max_retry_count, do_post}

same_error :
    {A B : Type 0} (x y : Error)
    → ◌≡◌ {A = Outcome A} (err x) (err y)
    → ◌≡◌ {A = Reply B} (failed x) (failed y)
same_error x y p = cc

-- What is left to do in `fuel` rounds: at least one post and at most one in each, no panic, and an
-- error only after all of them.
pub record Tried (fuel : ℕ) (before after : List Call) (r : Outcome String) : Type 0 where
  pub some_post : suc (length before) ≤ length after
  pub bounded : length after ≤ length before + fuel
  pub no_panic : r ≢ panic
  pub all_failed : (e : Error) → r ≡ err e → length after ≡ length before + fuel

module _ {S : Type 0} (api : Client S) (uri : String) (headers : Selector) (body : String) where
  abbrev posted : World S → World S
  posted w = record {
    server = (api.http_do uri headers body w.server).1;
    issued = post uri body ∷ w.issued;
  }

  post_loop-done :
      (f r : ℕ) (w : World S) (resp : String)
      → (api.http_do uri headers body w.server).0 ≡ done resp
      → post_loop api (suc f) r uri headers body w ≡ (ok resp, posted w)
  unfolding post_loop ◌>>=◌
  post_loop-done f r w resp h = rw h

  post_loop-failed :
      (f r : ℕ) (w : World S) (e : Error)
      → (api.http_do uri headers body w.server).0 ≡ failed e
      → post_loop api (suc f) r uri headers body w ≡ (
          if leb r max_retry_count
          then post_loop api f (suc r) uri headers body (posted w)
          else (err e, posted w))
  unfolding post_loop ◌>>=◌
  post_loop-failed f r w e h =
      rw h (elim (Bool-cases (leb r max_retry_count)) [ inl t ↦ rw t | inr t ↦ rw t ])

  last_failed :
      (r : ℕ) (w : World S) (x : Error)
      → 1 + r ≡ 5
      → Tried 1 w.issued
          (if leb r max_retry_count
            then post_loop api 0 (suc r) uri headers body (posted w)
            else (err x, posted w)).1.issued
          (if leb r max_retry_count
            then post_loop api 0 (suc r) uri headers body (posted w)
            else (err x, posted w)).0
  last_failed r w x h = ground arith

  retried :
      (f r : ℕ) (w : World S) (x : Error)
      → suc (suc f) + r ≡ 5
      → Tried
          (suc f)
          (posted w).issued
          (post_loop api (suc f) (suc r) uri headers body (posted w)).1.issued
          (post_loop api (suc f) (suc r) uri headers body (posted w)).0
      → Tried
          (suc (suc f))
          w.issued
          (if leb r max_retry_count
            then post_loop api (suc f) (suc r) uri headers body (posted w)
            else (err x, posted w)).1.issued
          (if leb r max_retry_count
            then post_loop api (suc f) (suc r) uri headers body (posted w)
            else (err x, posted w)).0
  retried f r w x h t = ground arith

  post_loop-Tried :
      (f r : ℕ) (w : World S)
      → suc f + r ≡ 5
      → let (o, w') = post_loop api (suc f) r uri headers body w in
        Tried (suc f) w.issued w'.issued o
  post_loop-Tried zero r w h = elim (Reply-cases (api.http_do uri headers body w.server).0) [
    | inl (resp, e) ↦ rw (post_loop-done 0 r w resp e) (ground arith)
    | inr (x, e) ↦ rw (post_loop-failed 0 r w x e) (last_failed r w x h)
  ]
  post_loop-Tried (suc f) r w h = elim (Reply-cases (api.http_do uri headers body w.server).0) [
    | inl (resp, e) ↦ rw (post_loop-done (suc f) r w resp e) (ground arith)
    | inr (x, e) ↦
        rw (post_loop-failed (suc f) r w x e)
          (retried f r w x h (post_loop-Tried f (suc r) (posted w) (omega arith)))
  ]

  -- The posts of a call: at least one, at most five, no panic, and an error only after all of them.
  pub post_loop_total :
      (w : World S)
      → let (o, w') = post_loop api 5 0 uri headers body w in Tried 5 w.issued w'.issued o
  post_loop_total w = post_loop-Tried 4 0 w refl

module _ {S : Type 0} (api : Client S) where
  -- The error is that of a response that could not be read, or of a text that could not be decoded.
  abbrev pub IsUnread : Error → Type 0
  IsUnread e =
      ((resp : String) × (s : S) × ((api.read_all resp s).0 ≡ failed e))
      ⊎ ((text : String) × (api.unmarshal text ≡ failed e))

  -- At least one post and at most five were issued, there was no panic, and an error comes only after five
  -- posts, or of a response that could not be read or decoded.
  abbrev pub IsPosted : {A : Type 0} → List Call → Outcome A × World S → Type 0
  IsPosted before (o, w) =
      (length before < length w.issued)
      × (length w.issued ≤ length before + 5)
      × (o ≢ panic)
      × ((e : Error) → o ≡ err e → (length w.issued ≡ length before + 5) ⊎ IsUnread e)

  -- What `doPost` does with the response.
  abbrev decoded : String → Exec S OpsCloudResult
  decoded resp = do all ← ask (api.read_all resp); ask (λ s. (api.unmarshal all, s))

  decoded-IsPosted :
      (before : List Call) (resp : String) (w : World S)
      → suc (length before) ≤ length w.issued
      → length w.issued ≤ length before + 5
      → IsPosted before (decoded resp w)
  unfolding ◌>>=◌
  decoded-IsPosted before resp w h k = elim (Reply-cases (api.read_all resp w.server).0) [
    | inr (x, e) ↦ rw e (h, k, (λ p. cc), (λ y p. inr (inl (resp, w.server, e ∙ same_error _ _ p))))
    | inl (all, e) ↦ elim (Reply-cases (api.unmarshal all)) [
      | inr (x, f) ↦ rw (e, f) (h, k, (λ p. cc), (λ y p. inr (inr (all, f ∙ same_error _ _ p))))
      | inl (a, f) ↦ rw (e, f) (h, k, (λ p. cc), (λ y p. absurd cc))
    ]
  ]

  answered-IsPosted :
      (before : List Call) (r : Outcome String × World S)
      → Tried 5 before r.1.issued r.0
      → IsPosted before (continue r.0 decoded r.1)
  answered-IsPosted before (ok resp, w) t = decoded-IsPosted before resp w t.some_post t.bounded
  answered-IsPosted before (err x, w) t =
      (t.some_post, t.bounded, (λ p. cc), (λ y p. inl (t.all_failed x refl)))
  answered-IsPosted before (panic, w) t = absurd (t.no_panic refl)

  -- Whatever the service answers, `doPost` sends the request at least once and at most five times and never
  -- panics, so it ends with a result or an error; and it ends with an error only after five posts, or with
  -- that of a response that could not be read or decoded.
  pub do_post-IsPosted :
      (uri : String) (request : Request) (w : World S)
      → IsPosted w.issued (do_post api uri request w)
  unfolding do_post ◌>>=◌
  do_post-IsPosted uri request w =
      answered-IsPosted w.issued _ (post_loop_total api uri _ (api.marshal request) _)
