-- ===== src/Server/Admin/Wire.antt =====
-- The JSON form of the state in crates/server/src/admin.rs, and its parser.
pub mod RoundTrip
use twitter_rust_formal_veri.Prelude.{
  ℤ, Str, lit, Option, none, some, List, [], ◌∷◌, map, Result, ok, err, ◌>>=◌,
}
use twitter_rust_formal_veri.Domain.{User, Tweet, Follow}
use twitter_rust_formal_veri.Store.Snapshot.{StoreSnapshot}
use twitter_rust_formal_veri.Service.Snapshot.{ServiceState}
use twitter_rust_formal_veri.Server.Json.{Json}

pub data ParseError : Type 0 where
  missing_field invalid_type : Str → ParseError

-- `ok_or(e)`
abbrev pub ok_or : {A : Type 0} → ParseError → Option A → Result ParseError A
ok_or e none = err e
ok_or e (some a) = ok a

-- `and_then`
abbrev pub and_then : {A B : Type 0} → Option A → (A → Option B) → Option B
and_then none f = none
and_then (some a) f = f a

-- `iter().map(parse).collect::<Result<Vec<_>, _>>()`, which stops at the first error
abbrev pub collect_results :
    {A V : Type 0} → (V → Result ParseError A) → List V → Result ParseError (List A)
collect_results parse [] = ok []
collect_results parse (v ∷ vs) = parse v >>= λ a. collect_results parse vs >>= λ rest. ok (a ∷ rest)

module _ {V : Type 0} (j : Json V) where
  unfoldable pub user_to_json : User → V
  user_to_json u = j.object ((lit "id", j.int u.id) ∷ (lit "handle", j.string u.handle) ∷ [])

  unfoldable pub follow_to_json : Follow → V
  follow_to_json f = j.object ((lit "from", j.string f.from) ∷ (lit "to", j.string f.to) ∷ [])

  unfoldable pub tweet_to_json : Tweet → V
  tweet_to_json t = j.object (
      (lit "id", j.int t.id)
      ∷ (lit "author", j.string t.author)
      ∷ (lit "text", j.string t.text)
      ∷ (lit "created_at", j.int t.created_at)
      ∷ [])

  unfoldable pub state_to_json : ServiceState → V
  unfolding user_to_json follow_to_json tweet_to_json
  state_to_json s = j.object (
      (lit "clock_now", j.int s.clock_now)
      ∷ (lit "id_counter_users", j.int s.id_counter_users)
      ∷ (lit "id_counter_tweets", j.int s.id_counter_tweets)
      ∷ (lit "users", j.array (map user_to_json s.store.users))
      ∷ (lit "follows", j.array (map follow_to_json s.store.follows))
      ∷ (lit "tweets", j.array (map tweet_to_json s.store.tweets))
      ∷ [])

  -- `v.get(k).and_then(|x| x.as_i64()).ok_or(e)`, and its siblings
  abbrev pub int_field : ParseError → Str → V → Result ParseError ℤ
  int_field e k v = ok_or e (and_then (j.get v k) j.as_i64)

  abbrev pub str_field : ParseError → Str → V → Result ParseError Str
  str_field e k v = ok_or e (and_then (j.get v k) j.as_str)

  abbrev pub array_field : ParseError → Str → V → Result ParseError (List V)
  array_field e k v = ok_or e (and_then (j.get v k) j.as_array)

  unfoldable pub parse_user : V → Result ParseError User
  parse_user v = int_field (invalid_type (lit "users[].id")) (lit "id") v >>= λ id.
      str_field (invalid_type (lit "users[].handle")) (lit "handle") v >>= λ handle.
      ok (record { id = id; handle = handle })

  unfoldable pub parse_follow : V → Result ParseError Follow
  parse_follow v = str_field (invalid_type (lit "follows[].from")) (lit "from") v >>= λ from.
      str_field (invalid_type (lit "follows[].to")) (lit "to") v >>= λ to.
      ok (record { from = from; to = to })

  unfoldable pub parse_tweet : V → Result ParseError Tweet
  parse_tweet v = int_field (invalid_type (lit "tweets[].id")) (lit "id") v >>= λ id.
      str_field (invalid_type (lit "tweets[].author")) (lit "author") v >>= λ author.
      str_field (invalid_type (lit "tweets[].text")) (lit "text") v >>= λ text.
      int_field (invalid_type (lit "tweets[].created_at")) (lit "created_at") v >>= λ created_at.
      ok (record { id = id; author = author; text = text; created_at = created_at })

  unfoldable pub parse_state : V → Result ParseError ServiceState
  unfolding parse_user parse_follow parse_tweet
  parse_state state =
      int_field (missing_field (lit "state.clock_now")) (lit "clock_now") state >>= λ clock_now.
      int_field (missing_field (lit "state.id_counter_users")) (lit "id_counter_users") state
      >>= λ id_counter_users.
          int_field (missing_field (lit "state.id_counter_tweets")) (lit "id_counter_tweets") state
          >>= λ id_counter_tweets.
              array_field (missing_field (lit "state.users")) (lit "users") state
              >>= collect_results parse_user
              >>= λ users.
                  array_field (missing_field (lit "state.follows")) (lit "follows") state
                  >>= collect_results parse_follow
                  >>= λ follows.
                      array_field (missing_field (lit "state.tweets")) (lit "tweets") state
                      >>= collect_results parse_tweet
                      >>= λ tweets. ok (record {
                        clock_now = clock_now;
                        id_counter_users = id_counter_users;
                        id_counter_tweets = id_counter_tweets;
                        store = record { users = users; follows = follows; tweets = tweets };
                      })
