-- ===== src/Net/Examples.antt =====
-- A crawl of a site with two pages that link to each other.
use gctrl.Prelude.{ℕ, ◌+◌, ◌≡◌, refl, false, [], ◌∷◌, none, some, String}
use gctrl.Prelude.Result.{Result, ok}
use gctrl.Net.Crawl.{
  CrawlConfig, CrawlResult, NetError, Outside, PageContent, Crawl, Url, crawl_from, crawl_site,
}
use gctrl.Net.Crawl.Ends.{crawl_site_ends}
use gctrl.Net.Crawl.Laws.{Sound, crawl_from-Sound}

abbrev url : String → Url
url text = record { host = some "h"; scheme = "http"; text = text }

abbrev site : Outside
site = record {
  parse = λ text. ok (url text);
  get = λ text. ok (record {
    status = 200;
    title = "";
    markdown = "two words";
    links = url "http://h/a#top" ∷ url "http://h/" ∷ url "http://h/x.pdf" ∷ [];
  });
  save_error = λ page. none;
}

abbrev config : CrawlConfig
config = record {
  max_depth = 3;
  max_pages = 5;
  delay_ms = 0;
  readability = false;
  min_words = 2;
  skip_patterns = ".pdf" ∷ [];
}

abbrev page : String → PageContent
page text = record { url = text; title = ""; markdown = "two words"; word_count = 2; status = 200 }

abbrev end : Crawl
end = record {
  visited = "http://h/a" ∷ "http://h/x.pdf" ∷ "http://h" ∷ [];
  queue = [];
  pages_crawled = 2;
  pages_skipped = 1;
  total_words = 4;
  saved = page "http://h/a" ∷ page "http://h" ∷ [];
}

crawls : crawl_from 9 site config (url "http://h/") ≡ some (ok end)
unfolding crawl_from
crawls = refl

crawl_site_ends_example :
    (n : ℕ) × (r : Result NetError CrawlResult) × ((more : ℕ)
      → crawl_site (more + n) site "http://h/" config ≡ some r)
crawl_site_ends_example = crawl_site_ends site "http://h/" config

crawl_from-Sound_example : Sound config end
crawl_from-Sound_example = crawl_from-Sound 9 site config (url "http://h/") end crawls
