-- ===== src/Server/Ui/Pages.antt =====
-- The pages of crates/server/src/ui.rs. `display` is the decimal text of an `i64`; the texts between what
-- is filled in stand in the modules below.
pub mod Frame
pub mod Fragments
pub mod Bodies
pub mod Markup
use twitter_rust_formal_veri.Prelude.{
  ℕ, ℤ, Str, lit, str_eq, Option, none, some, List, [], ◌∷◌, ◌++◌, if◌then◌else◌,
}
use twitter_rust_formal_veri.Std.HashMap.{Iteration}
use twitter_rust_formal_veri.Domain.{Tweet}
use twitter_rust_formal_veri.Service.{Service, home_timeline}
use twitter_rust_formal_veri.Server.Ui.Escape.{html_escape}
use twitter_rust_formal_veri.Server.Ui.Forms.{current_actor, profile_tweets}
use twitter_rust_formal_veri.Server.Ui.Pages.Frame.{page_start, page_head, page_main, page_end}
use twitter_rust_formal_veri.Server.Ui.Pages.Fragments.{
  actor_start, actor_end, log_in_link, no_tweets, article_start, article_author, article_id,
  article_body, article_end, error_start, error_end,
}
use twitter_rust_formal_veri.Server.Ui.Pages.Bodies.{
  log_in_body, compose_start, compose_end, home_end, follow_start, follow_middle, follow_end,
  profile_start, profile_buttons, profile_title, profile_tweets_start,
}

unfoldable pub actor_chip : Option Str → Str
actor_chip (some h) = actor_start ++ html_escape h ++ actor_end
actor_chip none = log_in_link

unfoldable pub page : Str → Option Str → Str → Str
unfolding actor_chip
page title actor body =
    page_start
    ++ html_escape title
    ++ page_head
    ++ actor_chip actor
    ++ page_main
    ++ body
    ++ page_end

module _ (display : ℤ → Str) where
  unfoldable pub article : Tweet → Str
  article t =
      article_start
      ++ html_escape t.author
      ++ article_author
      ++ html_escape t.author
      ++ article_id
      ++ display t.id
      ++ article_body
      ++ html_escape t.text
      ++ article_end

  -- `map(article).collect::<Vec<_>>().join("\n")`
  unfoldable pub joined : List Tweet → Str
  joined [] = []
  joined (t ∷ []) = article t
  joined (t ∷ u ∷ tweets) = article t ++ lit "\n" ++ joined (u ∷ tweets)

  unfoldable pub render_tweets : List Tweet → Str
  unfolding joined
  render_tweets [] = no_tweets
  render_tweets (t ∷ tweets) = joined (t ∷ tweets)

unfoldable pub error_html : Option Str → Str
error_html none = []
error_html (some e) = error_start ++ html_escape e ++ error_end

-- The reader, if there is one, and the handle of the page.
unfoldable pub follow_buttons : Option Str → Str → Str
follow_buttons none handle = []
follow_buttons (some a) handle =
    if str_eq a handle
    then []
    else follow_start ++ html_escape handle ++ follow_middle ++ html_escape handle ++ follow_end

module _ (display : ℤ → Str) {C : Type 0} (followed authors : Iteration) (s : Service C) where
  -- The page of an actor, or the one to log in.
  unfoldable pub home_page : Option Str → Option Str → Str
  unfolding error_html render_tweets
  home_page error none = page (lit "log in") none (error_html error ++ log_in_body)
  home_page error (some handle) = page (lit "home") (some handle) (
      error_html error
      ++ compose_start
      ++ html_escape handle
      ++ compose_end
      ++ render_tweets display (home_timeline followed authors s handle 50)
      ++ home_end)

  unfoldable pub profile_page : Option Str → Str → Str
  unfolding follow_buttons render_tweets
  profile_page actor handle = page (lit "@" ++ handle) actor (
      profile_start
      ++ html_escape handle
      ++ profile_buttons
      ++ follow_buttons actor handle
      ++ profile_title
      ++ html_escape handle
      ++ profile_tweets_start
      ++ render_tweets display (profile_tweets followed authors s handle))

module _ (tag : Str → Str) (as_bytes : Str → List ℕ) (display : ℤ → Str) {C : Type 0}
    (followed authors : Iteration) (s : Service C) where
  -- The header `Cookie`, and the parameter `error` of the address.
  unfoldable pub home_or_login : Option Str → Option Str → Str
  unfolding home_page
  home_or_login cookie error =
      home_page display followed authors s error (current_actor tag as_bytes cookie)

  unfoldable pub profile : Option Str → Str → Str
  unfolding profile_page
  profile cookie handle =
      profile_page display followed authors s (current_actor tag as_bytes cookie) handle
