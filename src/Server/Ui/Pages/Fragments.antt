-- ===== src/Server/Ui/Pages/Fragments.antt =====
-- The texts in crates/server/src/ui.rs that `page`, `render_tweets`, `home_or_login` and `profile` fill in.
use twitter_rust_formal_veri.Prelude.{Str, lit, ◌++◌}

-- Around the acting handle
unfoldable pub actor_start : Str
actor_start = lit "<span class=\"actor\">acting as <strong>@"

-- After it
unfoldable pub actor_end : Str
actor_end =
    lit "</strong> ·\n"
    ++ lit
        "              <form method=\"post\" action=\"/_session/clear\" style=\"display:inline\">\n"
    ++ lit "                <button class=\"link\">switch</button>\n"
    ++ lit "              </form></span>"

-- With no acting handle
unfoldable pub log_in_link : Str
log_in_link = lit "<span class=\"actor\"><a href=\"/\">log in</a></span>"

-- With no tweets
unfoldable pub no_tweets : Str
no_tweets = lit "<p class=\"empty\">No tweets to show. Follow someone or post.</p>"

-- Of one tweet, up to the author in the link
unfoldable pub article_start : Str
article_start =
    lit "<article class=\"tweet\">\n"
    ++ lit "                     <div class=\"tweet-meta\"><a href=\"/u/"

-- Up to the author in the text
unfoldable pub article_author : Str
article_author = lit "\">@"

-- Up to the identifier
unfoldable pub article_id : Str
article_id = lit "</a> · #"

-- Up to the text
unfoldable pub article_body : Str
article_body = lit "</div>\n" ++ lit "                     <div>"

-- After the text
unfoldable pub article_end : Str
article_end = lit "</div>\n" ++ lit "                   </article>"

-- Around an error
unfoldable pub error_start : Str
error_start = lit "<div class=\"error\">"

-- After it
unfoldable pub error_end : Str
error_end = lit "</div>"
