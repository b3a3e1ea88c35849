-- ===== src/Endpoints/Gateways/Caching.antt =====
-- What the cache of ListGateways remembers.
use text.Mathlib.TextLemmas.{append_cancel_left}
use backend_assessment.Prelude.{
  ◌≡◌, ◌≢◌, refl, inl, inr, Option, none, some, String, List, str_eq, eq_iff, eq_refl, Option-cases,
  Bool-cases, arith,
}
use backend_assessment.Prelude.Dict.{lookup, lookup-insert}
use backend_assessment.Models.{Gateway}
use backend_assessment.Http.{Request, json, Services, scan_all}
use backend_assessment.Endpoints.Gateways.{
  Cache, cache_key, list_query, list_result, list_uncached, list_gateways,
}

module _ {W : Type 0} (sv : Services W) where
  list_result-caches :
      (cache : Cache) (key : String) (r : Option (List (Option Gateway)) × W) (body : String)
      → (list_result sv cache key r).0 ≡ json body
      → (gs : List Gateway) × (lookup key (list_result sv cache key r).1 ≡ some gs)
        × (sv.encode_gateways gs ≡ body)
  unfolding list_result
  list_result-caches cache key (none, w) body e = cc
  list_result-caches cache key (some rows, w) body e =
      (scan_all rows, ground (arith, lookup-insert key key (scan_all rows) cache, eq_refl key), cc)

  list_gateways-caches :
      (cache : Cache) (r : Request) (w : W) (body : String)
      → (list_gateways sv cache r w).0 ≡ json body
      → (gs : List Gateway) × (lookup (cache_key r.search) (list_gateways sv cache r w).1 ≡ some gs)
        × (sv.encode_gateways gs ≡ body)
  unfolding list_gateways list_uncached
  list_gateways-caches cache r w body e = elim (Bool-cases (str_eq r.user_id "")) [
    | inl anonymous ↦ ground arith
    | inr known ↦ elim (Option-cases (lookup (cache_key r.search) cache)) [
      | inl missing ↦
          let (query, args) = list_query r.search in
          let (gs, kept, same) =
            list_result-caches cache (cache_key r.search) (sv.query_gateways query args w) body
              (ground arith) in
          (gs, ground arith, same)
      | inr (gs, found) ↦ (gs, ground arith, ground arith)
    ]
  ]

  list_gateways_hit :
      (cache : Cache) (r : Request) (w : W) (gs : List Gateway)
      → lookup (cache_key r.search) cache ≡ some gs
      → r.user_id ≢ ""
      → list_gateways sv cache r w ≡ (json (sv.encode_gateways gs), cache, w)
  unfolding list_gateways
  list_gateways_hit cache r w gs found known = ground (arith, eq_iff r.user_id "")

  -- Once a list of gateways was returned for a search text, every later request of a known user for
  -- the same text gets the same document from the cache that the first left, whatever the database
  -- holds by then and without asking it.
  pub list_gateways_again :
      (cache : Cache) (first again : Request) (w later : W) (body : String)
      → (list_gateways sv cache first w).0 ≡ json body
      → again.search ≡ first.search
      → again.user_id ≢ ""
      → let kept = (list_gateways sv cache first w).1 in
        list_gateways sv kept again later ≡ (json body, kept, later)
  list_gateways_again cache first again w later body e same known =
      let (gs, found, encoded) = list_gateways-caches cache first w body e in
      rw (← encoded)
        (list_gateways_hit (list_gateways sv cache first w).1 again later gs (rw same found) known)

  list_result-others :
      (cache : Cache) (key other : String) (r : Option (List (Option Gateway)) × W)
      → other ≢ key
      → lookup other (list_result sv cache key r).1 ≡ lookup other cache
  unfolding list_result
  list_result-others cache key other (none, w) ne = refl
  list_result-others cache key other (some rows, w) ne =
      ground (arith, lookup-insert key other (scan_all rows) cache, eq_iff key other)

  -- A request leaves what the cache holds for any other search text.
  pub list_gateways_others :
      (cache : Cache) (r : Request) (w : W) (search : String)
      → search ≢ r.search
      → lookup (cache_key search) (list_gateways sv cache r w).1 ≡ lookup (cache_key search) cache
  unfolding list_gateways list_uncached
  list_gateways_others cache r w search other =
      let (query, args) = list_query r.search in
      let kept =
        list_result-others cache (cache_key r.search) (cache_key search)
          (sv.query_gateways query args w)
          (λ e. other (append_cancel_left "gateways_" search r.search e)) in
      ground (arith, kept)
