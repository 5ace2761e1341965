-- ===== src/Tests/Pages.antt =====
-- The pages of crates/server/src/ui.rs in the town.
use twitter_rust_formal_veri.Prelude.{ℤ, Str, lit, str_eq, ◌++◌, ◌≡◌, refl, ap, false, some, length}
use twitter_rust_formal_veri.Service.{home_timeline}
use twitter_rust_formal_veri.Store.Timeline.Contents.{home_timeline-order_free}
use twitter_rust_formal_veri.Server.Ui.Pages.Fragments.{
  article_start, article_author, article_id, article_body, article_end,
}
use twitter_rust_formal_veri.Server.Ui.Escape.{has_markup, html_escape}
use twitter_rust_formal_veri.Server.Ui.Forms.{profile_tweets, by_author}
use twitter_rust_formal_veri.Server.Ui.Pages.{home_page, profile_page, article}
use twitter_rust_formal_veri.Server.Ui.Pages.Markup.{is_own, markup, markup-pages}
use twitter_rust_formal_veri.Tests.Data.{
  forwards, backwards, alice, bob, carol, town, town-IsSound, first_tweet,
}

abbrev one : ℤ → Str
one n = lit "1"

one_plain : (n : ℤ) → has_markup (one n) ≡ false
one_plain n = refl

strangers : is_own (some bob) alice ≡ is_own (some carol) alice
unfolding str_eq
strangers = refl

same_timeline :
    home_timeline forwards backwards town alice 50 ≡ home_timeline backwards forwards town alice 50
unfolding home_timeline
same_timeline =
    home_timeline-order_free forwards backwards backwards forwards town.st alice 50
      town-IsSound.valid.author town-IsSound.unique

same_profile :
    profile_tweets forwards backwards town alice ≡ profile_tweets backwards forwards town alice
unfolding profile_tweets
same_profile = ap (by_author alice) same_timeline

markup-pages_example :
    (markup (home_page one forwards backwards town (some (lit "<b>")) (some alice))
      ≡ markup (home_page one backwards forwards town (some (lit "no")) (some alice)))
    × (markup (profile_page one forwards backwards town (some bob) alice)
        ≡ markup (profile_page one backwards forwards town (some carol) alice))
markup-pages_example =
    markup-pages one one_plain forwards backwards backwards forwards town town (some (lit "<b>"))
      (some (lit "no")) (some bob) (some carol) alice alice refl (ap length same_timeline) refl
      strangers (ap length same_profile)

-- The text of a tweet comes out escaped.
article_text : article one (record first_tweet { text = lit "<i>" }) ≡ (
    article_start
    ++ bob
    ++ article_author
    ++ bob
    ++ article_id
    ++ lit "1"
    ++ article_body
    ++ lit "&lt;i&gt;"
    ++ article_end)
unfolding article html_escape
article_text = refl
