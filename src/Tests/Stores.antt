-- ===== src/Tests/Stores.antt =====
-- Stand-ins for the packages that backend/internal/locks/locks.go uses: ids as one letter, and a
-- lock server as the list of what was written to it.
use seatsync.Prelude.{
  ℕ, ◌+◌, ◌*◌, ◌-◌, ◌≡◌, refl, Bool, true, false, not, ◌&&◌, Option, none, some, List, [], ◌∷◌, map,
  keep, Text, text_eq, text_eq_refl, contains, arith, ltb, leb, if◌then◌else◌,
}
use seatsync.Locks.Uuids.{UuidCodec}
use seatsync.Locks.Redis.{Redis}

-- An id is the byte that follows the colon by as much, plus one.
abbrev pub letter_parse : Text → Option ℕ
letter_parse [] = none
letter_parse (c ∷ []) = if ltb c 59 then none else some (c - 59)
letter_parse (c ∷ d ∷ x) = none

pub letter_parse-print : (u : ℕ) → letter_parse ((u + 59) ∷ []) ≡ some u
letter_parse-print u = ground arith

pub letter-no_colon : (u : ℕ) → contains ((u + 59) ∷ []) b':' ≡ false
unfolding contains
letter-no_colon u = ground arith

abbrev pub letters : UuidCodec
letters = record {
  to_text = λ u. (u + 59) ∷ [];
  parse = letter_parse;
  parse-to_text = letter_parse-print;
  no_colon = letter-no_colon;
}

-- A write of a string key: its value and when it ends, or nothing for a deletion.
abbrev pub Write : Type 0
Write = Text × Option (Text × ℕ)

pub record Server : Type 0 where
  pub keys : List Write
  pub members : List (Text × Text × ℕ)

abbrev pub live : ℕ → Option (Text × ℕ) → Option Text
live now none = none
live now (some (v, ends)) = if ltb now ends then some v else none

unfoldable pub lookup : ℕ → Text → List Write → Option Text
lookup now k [] = none
lookup now k ((j, w) ∷ ws) = if text_eq k j then live now w else lookup now k ws

unfoldable pub set_if_free : ℕ → Text → Text → ℕ → Server → Option Text → Bool × Server
set_if_free now k v ttl s (some w) = (false, s)
set_if_free now k v ttl s none =
    (true, record s { keys = (k, some (v, now + 1000 * ttl)) ∷ s.keys })

pub set_if_free-ne :
    (now t : ℕ) (j k v : Text) (ttl : ℕ) (s : Server) (o : Option Text)
    → text_eq j k ≡ false
    → lookup t j (set_if_free now k v ttl s o).1.keys ≡ lookup t j s.keys
unfolding set_if_free lookup
set_if_free-ne now t j k v ttl s (some w) h = refl
set_if_free-ne now t j k v ttl s none h = ground arith

pub set_if_free_self :
    (now t : ℕ) (k v : Text) (ttl : ℕ) (s : Server) (o : Option Text)
    → o ≡ none
    → lookup t k (set_if_free now k v ttl s o).1.keys
      ≡ (if ltb t (now + 1000 * ttl) then some v else none)
unfolding set_if_free lookup
set_if_free_self now t k v ttl s (some w) h = absurd (ground arith)
set_if_free_self now t k v ttl s none h = rw (text_eq_refl k) refl

pub set_if_free-held :
    (now : ℕ) (k v : Text) (ttl : ℕ) (s : Server) (o : Option Text) {w : Text}
    → o ≡ some w
    → set_if_free now k v ttl s o ≡ (false, s)
unfolding set_if_free
set_if_free-held now k v ttl s (some u) h = refl
set_if_free-held now k v ttl s none h = absurd (ground arith)

pub set_if_free-free :
    (now : ℕ) (k v : Text) (ttl : ℕ) (s : Server) (o : Option Text)
    → o ≡ none
    → (set_if_free now k v ttl s o).0 ≡ true
unfolding set_if_free
set_if_free-free now k v ttl s (some u) h = absurd (ground arith)
set_if_free-free now k v ttl s none h = refl

pub lookup-deleted :
    (t : ℕ) (j k : Text) (ws : List Write)
    → lookup t j ((k, none) ∷ ws) ≡ (if text_eq j k then none else lookup t j ws)
unfolding lookup
lookup-deleted t j k ws = refl

abbrev pub other_member : Text → Text → Text × Text × ℕ → Bool
other_member z m (z', m', score) = not (text_eq z z' && text_eq m m')

abbrev pub not_swept : Text → ℕ → Text × Text × ℕ → Bool
not_swept z top (z', m', score) = not (text_eq z z' && leb score top)

abbrev pub in_range : Text → ℕ → Text × Text × ℕ → Bool
in_range z bottom (z', m', score) = text_eq z z' && ltb bottom score

abbrev pub member_score : Text × Text × ℕ → Text × ℕ
member_score (z', m', score) = (m', score)

-- The expiry of a sorted set is later than that of its members, and is left out.
abbrev pub server : Redis
server = record {
  Store = Server;
  get = λ now k s. lookup now k s.keys;
  set_nx_ex = λ now k v ttl s. set_if_free now k v ttl s (lookup now k s.keys);
  del = λ now k s. record s { keys = (k, none) ∷ s.keys };
  zadd =
      λ now z score m s. record s { members = (z, m, score) ∷ keep (other_member z m) s.members };
  zrem = λ now z m s. record s { members = keep (other_member z m) s.members };
  expire = λ now z ttl s. s;
  zremrangebyscore = λ now z top s. record s { members = keep (not_swept z top) s.members };
  zrangebyscore = λ now z bottom s. map member_score (keep (in_range z bottom) s.members);
  set-held = λ now k v ttl s {w} h. set_if_free-held now k v ttl s _ h;
  set-free = λ now k v ttl s positive h. set_if_free-free now k v ttl s _ h;
  get-set_self = λ now t k v ttl s positive h later. set_if_free_self now t k v ttl s _ h;
  get-set_ne = λ now t j k v ttl s h. set_if_free-ne now t j k v ttl s _ h;
  get-del = λ now t j k s later. lookup-deleted t j k s.keys;
  get-zadd = λ now t j z score m s h. refl;
  get-zrem = λ now t j z m s h. refl;
  get-expire = λ now t j z ttl s h. refl;
  get-zremrangebyscore = λ now t j z score s h. refl;
}

abbrev pub empty_server : Server
empty_server = record { keys = []; members = [] }
