-- ===== src/Net/Crawl.antt =====
-- The crawler: kernel/crates/gctrl-net/src/crawl.rs. The network, the parsing of HTML and of URLs and
-- the store of pages are arguments; a URL is fetched at most once, so a reply is a function of it. The
-- queue's list begins with the entry that `pop` takes.
pub mod Ends
pub mod Laws
use Prim.Native.String.{compare}
use Prim.Native.Nat.{Ordering}
use gctrl.Prelude.{
  ℕ, zero, suc, ◌+◌, Bool, true, false, not, ◌&&◌, List, [], ◌∷◌, Option, none, some, String, ◌==◌,
  String_eq, ltb, leb, any, retain, map, if◌then◌else◌,
}
use gctrl.Prelude.Text.{contains, starts_with, ends_with, word_count, until, pop, byte_len}
use gctrl.Prelude.Result.{Result, ok, err}

pub record CrawlConfig : Type 0 where
  pub max_depth : ℕ
  pub max_pages : ℕ
  pub delay_ms : ℕ
  pub readability : Bool
  pub min_words : ℕ
  pub skip_patterns : List String

abbrev pub default_skip_patterns : List String
default_skip_patterns =
    "/admin" ∷ "/login" ∷ "/signup" ∷ "/auth" ∷ "/api/" ∷ "/cdn-cgi/" ∷ "/static/" ∷ ".pdf" ∷ ".zip"
    ∷ ".tar" ∷ ".gz" ∷ ".png" ∷ ".jpg" ∷ ".jpeg" ∷ ".gif" ∷ ".svg" ∷ ".ico" ∷ ".css" ∷ ".js"
    ∷ ".woff" ∷ ".woff2" ∷ "?utm_" ∷ "#" ∷ "mailto:" ∷ []

abbrev pub default_config : CrawlConfig
default_config = record {
  max_depth = 3;
  max_pages = 50;
  delay_ms = 200;
  readability = true;
  min_words = 50;
  skip_patterns = default_skip_patterns;
}

pub record CrawlResult : Type 0 where
  pub domain : String
  pub pages_crawled : ℕ
  pub pages_skipped : ℕ
  pub total_words : ℕ

pub record PageContent : Type 0 where
  pub url : String
  pub title : String
  pub markdown : String
  pub word_count : ℕ
  pub status : ℕ

-- `NetError`: the crawler's own, and that of another part with its text.
pub data NetError : Type 0 where
  below_threshold : (url : String) (words min_words : ℕ) → NetError
  other : String → NetError

-- A link that `base_url.join` resolved.
pub record Url : Type 0 where
  pub host : Option String
  pub scheme : String
  pub text : String

-- A page as the client and the parser of HTML give it.
pub record Reply : Type 0 where
  pub status : ℕ
  pub title : String
  pub markdown : String
  pub links : List Url

-- What is outside: the parser of URLs, the client, and the error of a save.
pub record Outside : Type 0 where
  pub parse : String → Result NetError Url
  pub get : String → Result NetError Reply
  pub save_error : PageContent → Option NetError

unfoldable pub normalize_url : Url → String
unfolding until pop ends_with byte_len
normalize_url url =
    let s = until 35 url.text in
    if ends_with s "/" && ltb (byte_len url.scheme + 3) (byte_len s) then pop s else s

unfoldable pub should_skip : String → List String → Bool
unfolding contains
should_skip url patterns = any (contains url) patterns

abbrev has_host : String → Option String → Bool
has_host domain none = false
has_host domain (some h) = h == domain

abbrev is_ours : String → Url → Bool
is_ours domain url = has_host domain url.host && starts_with url.scheme "http"

-- `sort` and `dedup`, as an insertion that leaves out what is there.
unfoldable pub insert_link : String → List String → List String
insert_link l [] = l ∷ []
insert_link l (x ∷ xs) =
    let rest = insert_link l xs in
    elim (compare l x) [ Ordering.lt ↦ l ∷ x ∷ xs | Ordering.eq ↦ x ∷ xs | Ordering.gt ↦ x ∷ rest ]

unfoldable pub sort_dedup : List String → List String
unfolding insert_link
sort_dedup [] = []
sort_dedup (l ∷ ls) = insert_link l (sort_dedup ls)

unfoldable pub extract_links_from_html : List Url → String → List String
unfolding sort_dedup normalize_url
extract_links_from_html resolved domain =
    sort_dedup (map normalize_url (retain (is_ours domain) resolved))

abbrev page_of : String → CrawlConfig → String → Reply → Result NetError (PageContent × List String)
page_of domain config url reply =
    let words = word_count reply.markdown in
    if ltb words config.min_words
    then err (below_threshold url words config.min_words)
    else ok (
      record {
        url = url;
        title = reply.title;
        markdown = reply.markdown;
        word_count = words;
        status = reply.status;
      },
      extract_links_from_html reply.links domain,
    )

abbrev fetched :
    String
    → CrawlConfig
    → String
    → Result NetError Reply
    → Result NetError (PageContent × List String)
fetched domain config url (err e) = err e
fetched domain config url (ok reply) = page_of domain config url reply

abbrev fetch_parsed :
    Outside
    → String
    → CrawlConfig
    → String
    → Result NetError Url
    → Result NetError (PageContent × List String)
fetch_parsed out domain config url (err e) = err e
fetch_parsed out domain config url (ok parsed) = fetched domain config url (out.get url)

unfoldable pub fetch_and_extract :
    Outside → String → CrawlConfig → String → Result NetError (PageContent × List String)
unfolding word_count extract_links_from_html
fetch_and_extract out domain config url = fetch_parsed out domain config url (out.parse url)

-- The variables of the loop, and the pages saved, the newest first.
pub record Crawl : Type 0 where
  pub visited : List String
  pub queue : List (String × ℕ)
  pub pages_crawled : ℕ
  pub pages_skipped : ℕ
  pub total_words : ℕ
  pub saved : List PageContent

abbrev pub is_visited : Crawl → String → Bool
is_visited st url = any (◌==◌ url) st.visited

-- `for link in links { if !visited.contains(&link) { queue.push(..) } }`.
unfoldable pub push_links :
    (String → Bool) → ℕ → List String → List (String × ℕ) → List (String × ℕ)
push_links seen depth [] queue = queue
push_links seen depth (l ∷ ls) queue =
    push_links seen depth ls (if seen l then queue else (l, depth) ∷ queue)

-- How an iteration ends: with the loop's next state, with the end of the loop, or with an error.
pub data Turn : Type 0 where
  goes_on : Crawl → Turn
  breaks : Crawl → Turn
  fails : NetError → Turn

unfoldable pub keep_page : Option NetError → ℕ → PageContent → List String → Crawl → Turn
unfolding push_links
keep_page (some e) depth page links st = fails e
keep_page none depth page links st = goes_on (record {
  visited = st.visited;
  queue = push_links (is_visited st) (depth + 1) links st.queue;
  pages_crawled = st.pages_crawled + 1;
  pages_skipped = st.pages_skipped;
  total_words = st.total_words + page.word_count;
  saved = page ∷ st.saved;
})

unfoldable pub after_fetch :
    Outside → ℕ → Result NetError (PageContent × List String) → Crawl → Turn
unfolding keep_page
after_fetch out depth (err e) st = goes_on (record st { pages_skipped = st.pages_skipped + 1 })
after_fetch out depth (ok (page, links)) st = keep_page (out.save_error page) depth page links st

-- What happens to a URL that was taken from the queue.
unfoldable pub visit : Outside → String → CrawlConfig → String → ℕ → Crawl → Turn
unfolding should_skip fetch_and_extract after_fetch
visit out domain config url depth st =
    if leb config.max_pages st.pages_crawled
    then breaks st
    else if ltb config.max_depth depth
    then goes_on st
    else if is_visited st url
    then goes_on st
    else if should_skip url config.skip_patterns
    then goes_on (record st { pages_skipped = st.pages_skipped + 1; visited = url ∷ st.visited })
    else after_fetch out depth (fetch_and_extract out domain config url)
        (record st { visited = url ∷ st.visited })

unfoldable pub turn : Outside → String → CrawlConfig → Crawl → Turn
unfolding visit
turn out domain config st = elim st.queue [
  | [] ↦ breaks st
  | (url, depth) ∷ rest ↦ visit out domain config url depth (record st { queue = rest })
]

-- The loop, by fuel: nothing if that is used up.
unfoldable pub crawl_loop :
    ℕ → Outside → String → CrawlConfig → Turn → Option (Result NetError Crawl)
unfolding turn
crawl_loop fuel out domain config (breaks st) = some (ok st)
crawl_loop fuel out domain config (fails e) = some (err e)
crawl_loop zero out domain config (goes_on st) = none
crawl_loop (suc fuel) out domain config (goes_on st) =
    crawl_loop fuel out domain config (turn out domain config st)

abbrev pub domain_of : Option String → String
domain_of none = "unknown"
domain_of (some h) = h

abbrev pub start : Url → Crawl
start base = record {
  visited = [];
  queue = (normalize_url base, 0) ∷ [];
  pages_crawled = 0;
  pages_skipped = 0;
  total_words = 0;
  saved = [];
}

-- The state that the crawl of a site ends in.
unfoldable pub crawl_from : ℕ → Outside → CrawlConfig → Url → Option (Result NetError Crawl)
unfolding crawl_loop normalize_url
crawl_from fuel out config base =
    crawl_loop fuel out (domain_of base.host) config (goes_on (start base))

abbrev pub result_of : String → Result NetError Crawl → Result NetError CrawlResult
result_of domain (err e) = err e
result_of domain (ok st) = ok (record {
  domain = domain;
  pages_crawled = st.pages_crawled;
  pages_skipped = st.pages_skipped;
  total_words = st.total_words;
})

abbrev loop_result : String → Option (Result NetError Crawl) → Option (Result NetError CrawlResult)
loop_result domain none = none
loop_result domain (some r) = some (result_of domain r)

abbrev crawl_parsed :
    ℕ → Outside → CrawlConfig → Result NetError Url → Option (Result NetError CrawlResult)
crawl_parsed fuel out config (err e) = some (err e)
crawl_parsed fuel out config (ok base) =
    loop_result (domain_of base.host) (crawl_from fuel out config base)

unfoldable pub crawl_site :
    ℕ → Outside → String → CrawlConfig → Option (Result NetError CrawlResult)
unfolding crawl_from
crawl_site fuel out start_url config = crawl_parsed fuel out config (out.parse start_url)
