-- ===== src/Server/Ui/Pages/Frame.antt =====
-- The text of `page` in crates/server/src/ui.rs around the title, the actor and the body.
use twitter_rust_formal_veri.Prelude.{Str, lit, ◌++◌}

-- Up to the title
unfoldable pub page_start : Str
page_start =
    lit "<!doctype html>\n"
    ++ lit "<html lang=\"en\">\n"
    ++ lit "<head>\n"
    ++ lit "<meta charset=\"utf-8\">\n"
    ++ lit "<meta name=\"viewport\" content=\"width=device-width,initial-scale=1\">\n"
    ++ lit "<title>"

-- From the title to the actor
unfoldable pub page_head : Str
page_head =
    lit " · twitter-formal-rust</title>\n"
    ++ lit
        "<script src=\"https://unpkg.com/htmx.org@2.0.4\" integrity=\"sha384-HGfztofotfshcF7+8n44JQL2oJmowVChPTg48S+jvZoztPfvwD79OC/LTtG6dMp+\" crossorigin=\"anonymous\"></script>\n"
    ++ lit "<style>\n"
    ++ lit "  :root { color-scheme: light dark; }\n"
    ++ lit "  * { box-sizing: border-box; }\n"
    ++ lit
        "  body { font-family: -apple-system, BlinkMacSystemFont, \"Segoe UI\", system-ui, sans-serif;\n"
    ++ lit "         max-width: 640px; margin: 0 auto; padding: 1rem;\n"
    ++ lit "         line-height: 1.5; color: #111; background: #fafafa; }\n"
    ++ lit "  @media (prefers-color-scheme: dark) { body { color: #eee; background: #111; }\n"
    ++ lit "    .tweet, .compose, .panel { background: #1a1a1a; border-color: #333; }\n"
    ++ lit "    a { color: #6cb6ff; } }\n"
    ++ lit "  header { display: flex; justify-content: space-between; align-items: baseline;\n"
    ++ lit
        "            border-bottom: 1px solid #ccc; padding-bottom: .5rem; margin-bottom: 1rem; }\n"
    ++ lit "  header h1 { margin: 0; font-size: 1.2rem; }\n"
    ++ lit "  header h1 a { color: inherit; text-decoration: none; }\n"
    ++ lit "  .actor { font-size: .85rem; color: #666; }\n"
    ++ lit "  .verified-badge { display: inline-block; background: #2b6cb0; color: white;\n"
    ++ lit "                     padding: 1px 6px; border-radius: 3px; font-size: .7rem;\n"
    ++ lit "                     vertical-align: middle; }\n"
    ++ lit "  .tweet { border: 1px solid #ddd; border-radius: 6px; padding: .75rem 1rem;\n"
    ++ lit "            margin-bottom: .5rem; background: white; }\n"
    ++ lit "  .tweet-meta { font-size: .8rem; color: #666; margin-bottom: .25rem; }\n"
    ++ lit "  .tweet-meta a { color: inherit; text-decoration: none; }\n"
    ++ lit "  .tweet-meta a:hover { text-decoration: underline; }\n"
    ++ lit "  .compose, .panel { border: 1px solid #ddd; border-radius: 6px; padding: 1rem;\n"
    ++ lit "                       margin-bottom: 1rem; background: white; }\n"
    ++ lit "  .compose textarea, .panel input[type=text] { width: 100%; padding: .5rem;\n"
    ++ lit "    border: 1px solid #ccc; border-radius: 4px; font: inherit; }\n"
    ++ lit "  .compose textarea { min-height: 4em; resize: vertical; }\n"
    ++ lit "  button { padding: .4rem .9rem; border: 1px solid #2b6cb0; background: #2b6cb0;\n"
    ++ lit "            color: white; border-radius: 4px; cursor: pointer; font: inherit; }\n"
    ++ lit "  button:hover { background: #244e85; }\n"
    ++ lit "  button.link { background: none; color: #2b6cb0; border: none; padding: 0;\n"
    ++ lit "                  text-decoration: underline; cursor: pointer; }\n"
    ++ lit "  button.secondary { background: white; color: #2b6cb0; }\n"
    ++ lit "  .error { color: #b00; padding: .5rem; border: 1px solid #f5b5b5;\n"
    ++ lit "            border-radius: 4px; background: #fff5f5; margin-bottom: 1rem; }\n"
    ++ lit "  .empty { color: #888; text-align: center; padding: 2rem 0; }\n"
    ++ lit "  footer { font-size: .8rem; color: #888; margin-top: 2rem; padding-top: 1rem;\n"
    ++ lit "            border-top: 1px solid #ccc; }\n"
    ++ lit "  footer a { color: inherit; }\n"
    ++ lit "</style>\n"
    ++ lit "</head>\n"
    ++ lit "<body>\n"
    ++ lit "<header>\n"
    ++ lit
        "  <h1><a href=\"/\">twitter-formal-rust <span class=\"verified-badge\">verified</span></a></h1>\n"
    ++ lit "  "

-- Between the actor and the body
unfoldable pub page_main : Str
page_main = lit "\n" ++ lit "</header>\n"

-- After the body
unfoldable pub page_end : Str
page_end =
    lit "\n"
    ++ lit "<footer>\n"
    ++ lit
        "  Verified backend (Verus + TLC). UI is in TCB. <a href=\"/version\">/version</a> · <a href=\"/healthz\">/healthz</a> · <a href=\"https://github.com/michaellady/twitter-rust-formal-verification\">source</a>\n"
    ++ lit "</footer>\n"
    ++ lit "</body>\n"
    ++ lit "</html>"
