-- ===== src/Server/Ui/Pages/Bodies.antt =====
-- The bodies of the pages in crates/server/src/ui.rs.
use twitter_rust_formal_veri.Prelude.{Str, lit, ◌++◌}

-- After the error, with no acting handle
unfoldable pub log_in_body : Str
log_in_body =
    lit "\n"
    ++ lit "                   <div class=\"panel\">\n"
    ++ lit "                     <h2>Pick a handle</h2>\n"
    ++ lit
        "                     <p>This is a verified-backend demo. There is no auth — pick any handle and you become it.</p>\n"
    ++ lit "                     <form method=\"post\" action=\"/_session\">\n"
    ++ lit
        "                       <input type=\"text\" name=\"handle\" required pattern=\"[a-z0-9_]+\"\n"
    ++ lit "                              minlength=\"1\" maxlength=\"32\" placeholder=\"alice\"\n"
    ++ lit
        "                              autocapitalize=\"off\" autocorrect=\"off\" spellcheck=\"false\" autofocus>\n"
    ++ lit
        "                       <p style=\"margin-top:.5rem;font-size:.85rem;color:#666\">Try <code>alice</code>, <code>bob</code>, or <code>carol</code> — they're seeded. Or pick something new and click \"create handle\" below.</p>\n"
    ++ lit "                       <button type=\"submit\">log in as this handle</button>\n"
    ++ lit
        "                       <button type=\"submit\" name=\"register\" value=\"1\" class=\"secondary\" formaction=\"/register\">create handle &amp; log in</button>\n"
    ++ lit "                     </form>\n"
    ++ lit "                   </div>\n"
    ++ lit "                "

-- After the error, up to the acting handle
unfoldable pub compose_start : Str
compose_start =
    lit "\n"
    ++ lit "                   <div class=\"compose\">\n"
    ++ lit "                     <form method=\"post\" action=\"/compose\">\n"
    ++ lit
        "                       <textarea name=\"text\" required maxlength=\"280\" placeholder=\"What's verified?\"></textarea>\n"
    ++ lit
        "                       <div style=\"margin-top:.5rem;display:flex;justify-content:space-between;align-items:center\">\n"
    ++ lit
        "                         <span style=\"font-size:.85rem;color:#666\">Posting as <strong>@"

-- Up to the timeline
unfoldable pub compose_end : Str
compose_end =
    lit "</strong></span>\n"
    ++ lit "                         <button type=\"submit\">post</button>\n"
    ++ lit "                       </div>\n"
    ++ lit "                     </form>\n"
    ++ lit "                   </div>\n"
    ++ lit "                   <h2 style=\"margin:1rem 0 .5rem\">home timeline</h2>\n"
    ++ lit "                   "

-- After the timeline
unfoldable pub home_end : Str
home_end = lit "\n" ++ lit "                "

-- The buttons, up to the handle to follow
unfoldable pub follow_start : Str
follow_start =
    lit "<form method=\"post\" action=\"/_ui/follow\" style=\"display:inline\">\n"
    ++ lit "                 <input type=\"hidden\" name=\"to\" value=\""

-- Up to the handle to unfollow
unfoldable pub follow_middle : Str
follow_middle =
    lit "\">\n"
    ++ lit "                 <button>follow</button>\n"
    ++ lit "               </form>\n"
    ++ lit
        "               <form method=\"post\" action=\"/_ui/unfollow\" style=\"display:inline;margin-left:.5rem\">\n"
    ++ lit "                 <input type=\"hidden\" name=\"to\" value=\""

-- After it
unfoldable pub follow_end : Str
follow_end =
    lit "\">\n"
    ++ lit "                 <button class=\"secondary\">unfollow</button>\n"
    ++ lit "               </form>"

-- Up to the handle
unfoldable pub profile_start : Str
profile_start = lit "<div class=\"panel\">\n" ++ lit "             <h2 style=\"margin-top:0\">@"

-- Up to the buttons
unfoldable pub profile_buttons : Str
profile_buttons = lit "</h2>\n" ++ lit "             "

-- Up to the handle over the tweets
unfoldable pub profile_title : Str
profile_title =
    lit "\n" ++ lit "           </div>\n" ++ lit "           <h2 style=\"margin:1rem 0 .5rem\">@"

-- Up to the tweets
unfoldable pub profile_tweets_start : Str
profile_tweets_start = lit "'s tweets</h2>\n" ++ lit "           "
