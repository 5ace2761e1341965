-- ===== src/Server/Admin/Wire/RoundTrip.antt =====
-- What `state_to_json` of crates/server/src/admin.rs writes, `parse_state` reads back.
use twitter_rust_formal_veri.Prelude.{lit, str_eq, ◌≡◌, refl, List, [], ◌∷◌, map, Mem, Result, ok}
use mathlib.Core.List.{mem-cons_self, mem-cons_of_mem}
use twitter_rust_formal_veri.Domain.{User, Tweet, Follow}
use twitter_rust_formal_veri.Service.Snapshot.{ServiceState}
use twitter_rust_formal_veri.Server.Json.{Json, IsI64}
use twitter_rust_formal_veri.Server.Admin.Wire.{
  ParseError, collect_results, user_to_json, follow_to_json, tweet_to_json, state_to_json,
  parse_user, parse_follow, parse_tweet, parse_state,
}

collect_results-map :
    {A V : Type 0} (write : A → V) (parse : V → Result ParseError A) (l : List A)
    → ((a : A) → Mem a l → parse (write a) ≡ ok a)
    → collect_results parse (map write l) ≡ ok l
collect_results-map write parse [] reads = refl
collect_results-map write parse (a ∷ l) reads = rw (
  reads a mem-cons_self,
  collect_results-map write parse l (λ b m. reads b (mem-cons_of_mem a m)),
)

module _ {V : Type 0} (j : Json V) where
  parse_user-user_to_json : (u : User) → IsI64 u.id → parse_user j (user_to_json j u) ≡ ok u
  unfolding parse_user user_to_json str_eq
  parse_user-user_to_json u fits = rw (
    j.get_object _ (lit "id") refl,
    j.get_object _ (lit "handle") refl,
    j.as_i64_int u.id fits,
    j.as_str_string u.handle,
  )

  parse_follow-follow_to_json : (f : Follow) → parse_follow j (follow_to_json j f) ≡ ok f
  unfolding parse_follow follow_to_json str_eq
  parse_follow-follow_to_json f = rw (
    j.get_object _ (lit "from") refl,
    j.get_object _ (lit "to") refl,
    j.as_str_string f.from,
    j.as_str_string f.to,
  )

  parse_tweet-tweet_to_json :
      (t : Tweet) → IsI64 t.id → IsI64 t.created_at → parse_tweet j (tweet_to_json j t) ≡ ok t
  unfolding parse_tweet tweet_to_json str_eq
  parse_tweet-tweet_to_json t id_fits time_fits = rw (
    j.get_object _ (lit "id") refl,
    j.get_object _ (lit "author") refl,
    j.get_object _ (lit "text") refl,
    j.get_object _ (lit "created_at") refl,
    j.as_i64_int t.id id_fits,
    j.as_str_string t.author,
    j.as_str_string t.text,
    j.as_i64_int t.created_at time_fits,
  )

-- Every number of a state is an `i64`, as its Rust type says.
pub record FitsI64 (s : ServiceState) : Type 0 where
  pub clock : IsI64 s.clock_now
  pub user_counter : IsI64 s.id_counter_users
  pub tweet_counter : IsI64 s.id_counter_tweets
  pub users : (u : User) → Mem u s.store.users → IsI64 u.id
  pub tweets : (t : Tweet) → Mem t s.store.tweets → IsI64 t.id × IsI64 t.created_at

module _ {V : Type 0} (j : Json V) where
  -- `parse_state` reads back exactly the state that `state_to_json` wrote, whatever users, follows and
  -- tweets it has.
  pub parse_state-state_to_json :
      (s : ServiceState) → FitsI64 s → parse_state j (state_to_json j s) ≡ ok s
  unfolding parse_state state_to_json str_eq
  parse_state-state_to_json s fits = rw (
    j.get_object _ (lit "clock_now") refl,
    j.get_object _ (lit "id_counter_users") refl,
    j.get_object _ (lit "id_counter_tweets") refl,
    j.get_object _ (lit "users") refl,
    j.get_object _ (lit "follows") refl,
    j.get_object _ (lit "tweets") refl,
    j.as_i64_int s.clock_now fits.clock,
    j.as_i64_int s.id_counter_users fits.user_counter,
    j.as_i64_int s.id_counter_tweets fits.tweet_counter,
    j.as_array_array (map (user_to_json j) s.store.users),
    j.as_array_array (map (follow_to_json j) s.store.follows),
    j.as_array_array (map (tweet_to_json j) s.store.tweets),
    collect_results-map (user_to_json j) (parse_user j) s.store.users
        (λ u m. parse_user-user_to_json j u (fits.users u m)),
    collect_results-map (follow_to_json j) (parse_follow j) s.store.follows
        (λ f _. parse_follow-follow_to_json j f),
    collect_results-map (tweet_to_json j) (parse_tweet j) s.store.tweets
        (λ t m. parse_tweet-tweet_to_json j t (fits.tweets t m).0 (fits.tweets t m).1),
  )
