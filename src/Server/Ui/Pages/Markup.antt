-- ===== src/Server/Ui/Pages/Markup.antt =====
-- What users write does not get into the markup of the pages of crates/server/src/ui.rs.
use twitter_rust_formal_veri.Prelude.{
  ℤ, Str, str_eq, ◌≡◌, refl, Bool, true, false, ◌||◌, ◌==◌, Option, none, some, List, [], ◌∷◌, ◌++◌,
  length, arith, if◌then◌else◌, Bool-cases, inl, inr,
}
use twitter_rust_formal_veri.Std.HashMap.{Iteration}
use twitter_rust_formal_veri.Domain.{Tweet}
use twitter_rust_formal_veri.Service.{Service, home_timeline}
use twitter_rust_formal_veri.Server.Ui.Escape.{html_escape, html_escape_lem, has_markup}
use twitter_rust_formal_veri.Server.Ui.Forms.{profile_tweets}
use twitter_rust_formal_veri.Server.Ui.Pages.{
  page, actor_chip, article, joined, render_tweets, error_html, home_page, follow_buttons,
  profile_page,
}

-- The characters of a text that open or close a tag or a quoted attribute, in order.
unfoldable pub markup : Str → Str
markup [] = []
markup (c ∷ s) =
    let rest = markup s in
    if c == 0x3c || c == 0x3e || c == 0x22 || c == 0x27 then c ∷ rest else rest

markup-append : (s t : Str) → markup (s ++ t) ≡ markup s ++ markup t
unfolding markup
markup-append [] t = refl
markup-append (c ∷ s) t = ground (arith, markup-append s t)

markup_none : (s : Str) → has_markup s ≡ false → markup s ≡ []
unfolding markup
markup_none [] h = refl
markup_none (c ∷ s) h = ground (arith, markup_none s)

markup-html_escape : (s : Str) → markup (html_escape s) ≡ []
markup-html_escape s = markup_none (html_escape s) (html_escape_lem s).1

abbrev pub is_some : Option Str → Bool
is_some none = false
is_some (some s) = true

markup-actor_chip :
    (actor actor' : Option Str)
    → is_some actor ≡ is_some actor'
    → markup (actor_chip actor) ≡ markup (actor_chip actor')
unfolding actor_chip
markup-actor_chip none none e = refl
markup-actor_chip (some h) (some h') e = simp (markup-append, markup-html_escape)
markup-actor_chip none (some h') e = cc
markup-actor_chip (some h) none e = cc

-- The reader looks at its own page.
abbrev pub is_own : Option Str → Str → Bool
is_own none handle = false
is_own (some a) handle = str_eq a handle

markup-follow_buttons :
    (reader reader' : Option Str) (handle handle' : Str)
    → is_some reader ≡ is_some reader'
    → is_own reader handle ≡ is_own reader' handle'
    → markup (follow_buttons reader handle) ≡ markup (follow_buttons reader' handle')
unfolding follow_buttons
markup-follow_buttons none none handle handle' e own = refl
markup-follow_buttons (some a) (some a') handle handle' e own =
    rw own (elim (Bool-cases (str_eq a' handle')) [
      | inl same ↦ rw same
      | inr other ↦ rw other (simp (markup-append, markup-html_escape))
    ])
markup-follow_buttons none (some a') handle handle' e own = cc
markup-follow_buttons (some a) none handle handle' e own = cc

markup-page :
    (title title' : Str) (actor actor' : Option Str) (body body' : Str)
    → is_some actor ≡ is_some actor'
    → markup body ≡ markup body'
    → markup (page title actor body) ≡ markup (page title' actor' body')
unfolding page
markup-page title title' actor actor' body body' chip same =
    simp (markup-append, markup-html_escape) (rw (markup-actor_chip actor actor' chip, same))

markup-error_html :
    (error error' : Option Str)
    → is_some error ≡ is_some error'
    → markup (error_html error) ≡ markup (error_html error')
unfolding error_html
markup-error_html none none e = refl
markup-error_html (some h) (some h') e = simp (markup-append, markup-html_escape)
markup-error_html none (some h') e = cc
markup-error_html (some h) none e = cc

module _ (display : ℤ → Str) (plain : (n : ℤ) → has_markup (display n) ≡ false) where
  markup-article : (t u : Tweet) → markup (article display t) ≡ markup (article display u)
  unfolding article
  markup-article t u =
      simp (markup-append, markup-html_escape, λ (n : ℤ). markup_none (display n) (plain n))

  markup-joined :
      (ts us : List Tweet)
      → length ts ≡ length us
      → markup (joined display ts) ≡ markup (joined display us)
  unfolding joined
  markup-joined [] [] e = refl
  markup-joined (t ∷ []) (u ∷ []) e = markup-article t u
  markup-joined (t ∷ t' ∷ ts) (u ∷ u' ∷ us) e =
      simp (markup-append)
        (rw (markup-article t u, markup-joined (t' ∷ ts) (u' ∷ us) (omega arith)))
  markup-joined _ _ e = absurd (omega arith)

  markup-render_tweets :
      (ts us : List Tweet)
      → length ts ≡ length us
      → markup (render_tweets display ts) ≡ markup (render_tweets display us)
  unfolding render_tweets
  markup-render_tweets [] [] e = refl
  markup-render_tweets (t ∷ ts) (u ∷ us) e = markup-joined (t ∷ ts) (u ∷ us) e
  markup-render_tweets _ _ e = absurd (omega arith)

  module _ {C : Type 0} (i j i' j' : Iteration) (s s' : Service C) where
    -- The tags and quotes of the home page depend on nothing that users write: for any two services,
    -- actors and errors they are the same, if as many tweets are shown and an error is shown on both
    -- or on neither.
    pub markup-home_page :
        (error error' : Option Str) (handle handle' : Str)
        → is_some error ≡ is_some error'
        → length (home_timeline i j s handle 50) ≡ length (home_timeline i' j' s' handle' 50)
        → markup (home_page display i j s error (some handle))
          ≡ markup (home_page display i' j' s' error' (some handle'))
    unfolding home_page
    markup-home_page error error' handle handle' e count =
        markup-page _ _ (some handle) (some handle') _ _ refl (
          simp (markup-append, markup-html_escape)
            (rw (markup-error_html error error' e, markup-render_tweets _ _ count)))

    -- So it is on a profile: whatever the handle, the reader and the tweets are, the tags and quotes are
    -- the same if as many tweets are shown, and both pages have a reader or neither, who looks at its
    -- own page on both or on neither.
    pub markup-profile_page :
        (reader reader' : Option Str) (handle handle' : Str)
        → is_some reader ≡ is_some reader'
        → is_own reader handle ≡ is_own reader' handle'
        → length (profile_tweets i j s handle) ≡ length (profile_tweets i' j' s' handle')
        → markup (profile_page display i j s reader handle)
          ≡ markup (profile_page display i' j' s' reader' handle')
    unfolding profile_page
    markup-profile_page reader reader' handle handle' e own count =
        markup-page _ _ reader reader' _ _ e (
          simp (markup-append, markup-html_escape)
            (rw (
              markup-follow_buttons reader reader' handle handle' e own,
              markup-render_tweets _ _ count,
            )))

    -- The tags and quotes of a page depend on nothing that users write: for any two services, handles,
    -- readers and errors they are the same on the two home pages and on the two profiles, if as many
    -- tweets are shown, an error is shown on both or on neither, and both profiles have a reader or
    -- neither, who looks at its own page on both or on neither.
    pub markup-pages :
        (error error' reader reader' : Option Str) (handle handle' : Str)
        → is_some error ≡ is_some error'
        → length (home_timeline i j s handle 50) ≡ length (home_timeline i' j' s' handle' 50)
        → is_some reader ≡ is_some reader'
        → is_own reader handle ≡ is_own reader' handle'
        → length (profile_tweets i j s handle) ≡ length (profile_tweets i' j' s' handle')
        → (markup (home_page display i j s error (some handle))
            ≡ markup (home_page display i' j' s' error' (some handle')))
          × (markup (profile_page display i j s reader handle)
              ≡ markup (profile_page display i' j' s' reader' handle'))
    markup-pages error error' reader reader' handle handle' e count r own own_count = (
      markup-home_page error error' handle handle' e count,
      markup-profile_page reader reader' handle handle' r own own_count,
    )
