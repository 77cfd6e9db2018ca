-- ===== src/Net/Crawl/Laws.antt =====
-- What a crawl saves.
use gctrl.Prelude.{
  ℕ, zero, suc, ◌+◌, ◌≤◌, ◌≡◌, refl, true, false, List, [], ◌∷◌, Option, none, some, String, arith,
  eq_iff, ◌==◌, String_eq, any, All, All-map, length, ltb, leb, Bool-cases, inl, inr, subst, sym,
}
use gctrl.Prelude.Result.{Result, ok, err}
use gctrl.Net.Crawl.{
  CrawlConfig, NetError, Outside, PageContent, Crawl, Turn, goes_on, breaks, fails, turn, visit,
  after_fetch, keep_page, crawl_loop, crawl_from, fetch_and_extract, is_visited, should_skip, Url,
  start, domain_of,
}

unfoldable pub words_of : List PageContent → ℕ
words_of [] = 0
words_of (p ∷ ps) = p.word_count + words_of ps

-- No two pages have the same URL.
abbrev pub Apart : List PageContent → Type 0
Apart [] = Unit
Apart (p ∷ ps) = All (λ q. (q.url == p.url) ≡ false) ps × Apart ps

-- A page that the configuration lets be kept, and whose URL is among those visited.
abbrev pub Kept : CrawlConfig → List String → PageContent → Type 0
Kept config visited p =
    (any (◌==◌ p.url) visited ≡ true)
    × (should_skip p.url config.skip_patterns ≡ false)
    × (config.min_words ≤ p.word_count)

abbrev pub Sound : CrawlConfig → Crawl → Type 0
Sound config st =
    (st.pages_crawled ≤ config.max_pages)
    × (length st.saved ≡ st.pages_crawled)
    × (words_of st.saved ≡ st.total_words)
    × Apart st.saved
    × All (Kept config st.visited) st.saved

TurnSound : CrawlConfig → Turn → Type 0
TurnSound config (goes_on st) = Sound config st
TurnSound config (breaks st) = Sound config st
TurnSound config (fails e) = Unit

more_visited :
    (config : CrawlConfig) (visited : List String) (url : String) (p : PageContent)
    → Kept config visited p
    → Kept config (url ∷ visited) p
more_visited config visited url p h = ground arith

-- A URL that was not visited is not that of a saved page.
fresh_apart :
    (config : CrawlConfig) (visited : List String) (url : String) (ps : List PageContent)
    → any (◌==◌ url) visited ≡ false
    → All (Kept config visited) ps
    → All (λ q. (q.url == url) ≡ false) ps
fresh_apart config visited url [] new h = tt
fresh_apart config visited url (p ∷ ps) new h =
    (one p h.0.0, fresh_apart config visited url ps new h.1)
  where
    one : (p : PageContent) → any (◌==◌ p.url) visited ≡ true → (p.url == url) ≡ false
    one p seen = elim (Bool-cases (p.url == url)) [
      | inl same ↦ cc (rw ((eq_iff p.url url).0 same) at seen)
      | inr other ↦ other
    ]

-- The page that a fetch returns has the URL that was asked for, and enough words.
fetched_page :
    (out : Outside) (domain : String) (config : CrawlConfig) (url : String) (page : PageContent)
    (links : List String)
    → fetch_and_extract out domain config url ≡ ok (page, links)
    → (page.url ≡ url) × (config.min_words ≤ page.word_count)
unfolding fetch_and_extract
fetched_page out domain config url page links h = ground arith

page_fits :
    (config : CrawlConfig) (visited : List String) (url : String) (page : PageContent)
    → page.url ≡ url
    → should_skip url config.skip_patterns ≡ false
    → config.min_words ≤ page.word_count
    → Kept config (url ∷ visited) page
page_fits config visited url page same keeps enough =
    (ground (arith, eq_iff (page.url) url, same), rw same keeps, enough)

keep_page-Sound :
    (config : CrawlConfig) (url : String) (depth : ℕ) (st : Crawl) (page : PageContent)
    (links : List String) (e : Option NetError)
    → suc (st.pages_crawled) ≤ config.max_pages
    → is_visited st url ≡ false
    → should_skip url config.skip_patterns ≡ false
    → page.url ≡ url
    → config.min_words ≤ page.word_count
    → Sound config st
    → TurnSound config (keep_page e depth page links (record st { visited = url ∷ st.visited }))
unfolding keep_page TurnSound words_of
keep_page-Sound config url depth st page links (some e) room new keeps same enough sound = tt
keep_page-Sound config url depth st page links none room new keeps same enough (b, l, w, a, k) = (
  omega (arith, room),
  omega (arith, l),
  omega (arith, w),
  (
    subst (λ u. All (λ q. (q.url == u) ≡ false) st.saved) (sym same)
        (fresh_apart config st.visited url st.saved new k),
    a,
  ),
  (
    page_fits config st.visited url page same keeps enough,
    All-map _ _ (more_visited config st.visited url) st.saved k,
  ),
)

after_fetch-Sound :
    (out : Outside) (config : CrawlConfig) (url : String) (depth : ℕ) (st : Crawl)
    (reply : Result NetError (PageContent × List String))
    → suc (st.pages_crawled) ≤ config.max_pages
    → is_visited st url ≡ false
    → should_skip url config.skip_patterns ≡ false
    → ((page : PageContent) (links : List String)
        → reply ≡ ok (page, links)
        → (page.url ≡ url) × (config.min_words ≤ page.word_count))
    → Sound config st
    → TurnSound config (after_fetch out depth reply (record st { visited = url ∷ st.visited }))
unfolding after_fetch TurnSound
after_fetch-Sound out config url depth st (err e) room new keeps is_page (b, l, w, a, k) =
    (b, l, w, a, All-map _ _ (more_visited config st.visited url) st.saved k)
after_fetch-Sound out config url depth st (ok (page, links)) room new keeps is_page sound =
    let (same, enough) = is_page page links refl in
    keep_page-Sound config url depth st page links (out.save_error page) room new keeps same enough
      sound

skipped-Sound :
    (config : CrawlConfig) (url : String) (st : Crawl) (n : ℕ)
    → Sound config st
    → Sound config (record st { pages_skipped = n; visited = url ∷ st.visited })
skipped-Sound config url st n (b, l, w, a, k) =
    (b, l, w, a, All-map _ _ (more_visited config st.visited url) st.saved k)

visit-Sound :
    (out : Outside) (domain : String) (config : CrawlConfig) (url : String) (depth : ℕ) (st : Crawl)
    → Sound config st
    → TurnSound config (visit out domain config url depth st)
unfolding visit TurnSound
visit-Sound out domain config url depth st sound =
    elim (Bool-cases (leb config.max_pages st.pages_crawled)) [
      | inl full ↦ rw full sound
      | inr room ↦ elim (Bool-cases (ltb config.max_depth depth)) [
        | inl deep ↦ rw (room, deep) sound
        | inr near ↦ elim (Bool-cases (is_visited st url)) [
          | inl seen ↦ rw (room, near, seen) sound
          | inr new ↦ elim (Bool-cases (should_skip url config.skip_patterns)) [
            | inl skips ↦
                rw (room, near, new, skips)
                  (skipped-Sound config url st (st.pages_skipped + 1) sound)
            | inr keeps ↦
                rw (room, near, new, keeps)
                  (after_fetch-Sound out config url depth st
                    (fetch_and_extract out domain config url) (ground (arith, room)) new keeps
                    (fetched_page out domain config url) sound)
          ]
        ]
      ]
    ]

turn-Sound :
    (out : Outside) (domain : String) (config : CrawlConfig) (st : Crawl)
    → Sound config st
    → TurnSound config (turn out domain config st)
unfolding turn TurnSound
turn-Sound out domain config st sound = go st.queue
  where
    go :
        (q : List (String × ℕ))
        → TurnSound config (elim q [
          | [] ↦ breaks st
          | (url, depth) ∷ rest ↦ visit out domain config url depth (record st { queue = rest })
        ])
    go [] = sound
    go ((url, depth) ∷ rest) =
        visit-Sound out domain config url depth (record st { queue = rest }) sound

crawl_loop-Sound :
    (fuel : ℕ) (out : Outside) (domain : String) (config : CrawlConfig) (t : Turn) (st : Crawl)
    → TurnSound config t
    → crawl_loop fuel out domain config t ≡ some (ok st)
    → Sound config st
unfolding crawl_loop TurnSound
crawl_loop-Sound fuel out domain config (breaks st') st sound h =
    let same : st' ≡ st = cc in subst (Sound config) same sound
crawl_loop-Sound fuel out domain config (fails e) st sound h = cc
crawl_loop-Sound zero out domain config (goes_on st') st sound h = cc
crawl_loop-Sound (suc fuel) out domain config (goes_on st') st sound h =
    crawl_loop-Sound fuel out domain config (turn out domain config st') st
      (turn-Sound out domain config st' sound) h

-- A crawl that ends without an error has crawled at most as many pages as the configuration allows,
-- and saved each of them: no two of the pages have the same URL, each has at least the least number
-- of words and a URL in which none of the patterns to skip occurs, and the counts of pages and of
-- words that it reports are those of the pages saved.
pub crawl_from-Sound :
    (fuel : ℕ) (out : Outside) (config : CrawlConfig) (base : Url) (st : Crawl)
    → crawl_from fuel out config base ≡ some (ok st)
    → Sound config st
unfolding crawl_from TurnSound words_of
crawl_from-Sound fuel out config base st h =
    crawl_loop-Sound fuel out (domain_of base.host) config (goes_on (start base)) st
      (omega arith, refl, refl, tt, tt) h
