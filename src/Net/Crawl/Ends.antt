-- ===== src/Net/Crawl/Ends.antt =====
-- The crawl ends, whatever the pages link to.
use gctrl.Prelude.{
  ℕ, zero, suc, ◌+◌, ◌≤◌, ◌≡◌, refl, ◌⊎◌, inl, inr, List, [], ◌∷◌, Option, none, some, String,
  arith, length, ap, ◌∙◌, subst, sym,
}
use gctrl.Prelude.Result.{Result, ok, err}
use gctrl.Net.Crawl.{
  CrawlConfig, CrawlResult, NetError, Outside, PageContent, Crawl, Turn, goes_on, breaks, fails,
  turn, visit, after_fetch, keep_page, crawl_loop, crawl_from, crawl_site, fetch_and_extract, Url,
  start, domain_of, result_of,
}

-- A turn that goes on shortens the queue, or adds a page below the limit.
Progress : CrawlConfig → Crawl → Turn → Type 0
Progress config st (breaks st') = Unit
Progress config st (fails e) = Unit
Progress config st (goes_on st') =
    ((st'.pages_crawled ≡ st.pages_crawled) × (suc (length (st'.queue)) ≡ length (st.queue)))
    ⊎ ((st'.pages_crawled ≡ suc (st.pages_crawled)) × (suc (st.pages_crawled) ≤ config.max_pages))

after_fetch-Progress :
    (out : Outside) (config : CrawlConfig) (depth : ℕ) (st now : Crawl)
    (reply : Result NetError (PageContent × List String))
    → suc (st.pages_crawled) ≤ config.max_pages
    → now.pages_crawled ≡ st.pages_crawled
    → suc (length (now.queue)) ≡ length (st.queue)
    → Progress config st (after_fetch out depth reply now)
unfolding after_fetch Progress keep_page
after_fetch-Progress out config depth st now (err e) room same shorter = inl (same, shorter)
after_fetch-Progress out config depth st now (ok (page, links)) room same shorter =
    go (out.save_error page)
  where
    go : (e : Option NetError) → Progress config st (keep_page e depth page links now)
    go (some e) = tt
    go none = inr (omega (arith, same), room)

visit-Progress :
    (out : Outside) (domain : String) (config : CrawlConfig) (url : String) (depth : ℕ) (st : Crawl)
    (rest : List (String × ℕ))
    → st.queue ≡ (url, depth) ∷ rest
    → Progress config st (visit out domain config url depth (record st { queue = rest }))
unfolding visit Progress
visit-Progress out domain config url depth st rest taken = ground (
  arith,
  after_fetch-Progress out config depth st (record st { queue = rest; visited = url ∷ st.visited })
      (fetch_and_extract out domain config url),
)

turn-Progress :
    (out : Outside) (domain : String) (config : CrawlConfig) (st : Crawl)
    → Progress config st (turn out domain config st)
unfolding turn Progress
turn-Progress out domain config st = go st.queue refl
  where
    go : (q : List (String × ℕ)) → st.queue ≡ q → Progress config st (turn out domain config st)
    go [] e = rw e tt
    go ((url, depth) ∷ rest) e =
        subst (Progress config st)
          (sym (
            ap
              (λ q. elim q [
                | [] ↦ breaks st
                | (u, d) ∷ r ↦ visit out domain config u d (record st { queue = r })
              ])
              e))
          (visit-Progress out domain config url depth st rest e)

-- The loop ends with a result, and with the same one whatever more fuel it is given.
Ends : Outside → String → CrawlConfig → Turn → Type 0
Ends out domain config t =
    (n : ℕ) × (r : Result NetError Crawl) × ((more : ℕ)
      → crawl_loop (more + n) out domain config t ≡ some r)

ended :
    (out : Outside) (domain : String) (config : CrawlConfig) (t : Turn) (r : Result NetError Crawl)
    → ((n : ℕ) → crawl_loop n out domain config t ≡ some r)
    → Ends out domain config t
unfolding Ends
ended out domain config t r h = (0, r, λ more. h (more + 0))

plus_suc : (more n : ℕ) → more + suc n ≡ suc (more + n)
plus_suc more n = omega arith

one_more :
    (out : Outside) (domain : String) (config : CrawlConfig) (st : Crawl)
    → Ends out domain config (turn out domain config st)
    → Ends out domain config (goes_on st)
unfolding Ends crawl_loop
one_more out domain config st (n, r, h) = (
  suc n,
  r,
  λ more. ap (λ k. crawl_loop k out domain config (goes_on st)) (plus_suc more n) ∙ h more,
)

-- A turn after which the loop ends, if it ends after a shorter queue and after one more page.
by_turn :
    (out : Outside) (domain : String) (config : CrawlConfig) (st : Crawl)
    → ((st' : Crawl)
        → st'.pages_crawled ≡ st.pages_crawled
        → suc (length (st'.queue)) ≡ length (st.queue)
        → Ends out domain config (goes_on st'))
    → ((st' : Crawl)
        → st'.pages_crawled ≡ suc (st.pages_crawled)
        → suc (st.pages_crawled) ≤ config.max_pages
        → Ends out domain config (goes_on st'))
    → (t : Turn) → Progress config st t
    → Ends out domain config t
unfolding Progress crawl_loop Ends
by_turn out domain config st shorter more (breaks st') p = (0, ok st', λ n. refl)
by_turn out domain config st shorter more (fails e) p = (0, err e, λ n. refl)
by_turn out domain config st shorter more (goes_on st') (inl (same, less)) = shorter st' same less
by_turn out domain config st shorter more (goes_on st') (inr (page, room)) = more st' page room

-- By induction on the queue, where it is known that the loop ends after one more page.
drained :
    (out : Outside) (domain : String) (config : CrawlConfig) (room : ℕ)
    → ((st : Crawl)
        → st.pages_crawled ≤ config.max_pages
        → suc (config.max_pages) ≤ st.pages_crawled + room
        → Ends out domain config (goes_on st))
    → (q : ℕ) (st : Crawl) → length (st.queue) ≤ q
    → config.max_pages ≤ st.pages_crawled + room
    → Ends out domain config (goes_on st)
drained out domain config room next zero st short enough = one_more out domain config st (
    by_turn out domain config st (λ st' same less. absurd (omega (arith, short, less)))
      (λ st' page below. next st' (omega (arith, page, below)) (omega (arith, page, enough)))
      (turn out domain config st) (turn-Progress out domain config st))
drained out domain config room next (suc q) st short enough = one_more out domain config st (
    by_turn out domain config st
      (λ st' same less.
        drained out domain config room next q st' (omega (arith, short, less))
          (omega (arith, same, enough)))
      (λ st' page below. next st' (omega (arith, page, below)) (omega (arith, page, enough)))
      (turn out domain config st) (turn-Progress out domain config st))

all_end :
    (out : Outside) (domain : String) (config : CrawlConfig) (room : ℕ) (st : Crawl)
    → config.max_pages ≤ st.pages_crawled + room
    → Ends out domain config (goes_on st)
all_end out domain config zero st enough =
    drained out domain config zero (λ st' below past. absurd (omega (arith, below, past)))
      (length st.queue) st (omega arith) enough
all_end out domain config (suc room) st enough =
    drained out domain config (suc room)
      (λ st' below past. all_end out domain config room st' (omega (arith, past))) (length st.queue)
      st (omega arith) enough

-- Every crawl ends: with enough fuel it returns a result, and with more fuel the same one, whatever
-- the pages link to and whichever fetches and saves fail.
pub crawl_site_ends :
    (out : Outside) (start_url : String) (config : CrawlConfig)
    → (n : ℕ) × (r : Result NetError CrawlResult) × ((more : ℕ)
        → crawl_site (more + n) out start_url config ≡ some r)
unfolding crawl_site crawl_from Ends
crawl_site_ends out start_url config = go (out.parse start_url) refl
  where
    go :
        (parsed : Result NetError Url)
        → out.parse start_url ≡ parsed
        → (n : ℕ) × (r : Result NetError CrawlResult) × ((more : ℕ)
            → crawl_site (more + n) out start_url config ≡ some r)
    go (err e) is_err = (0, err e, λ more. rw is_err refl)
    go (ok base) is_ok =
        let (n, r, h) =
          all_end out (domain_of base.host) config config.max_pages (start base) (omega arith) in
        (n, result_of (domain_of base.host) r, λ more. rw is_ok (rw (h more) refl))
