-- ===== src/Protocol/Codec/Array.antt =====
-- Arrays: the loops over the elements behind an array header, as every message writes and reads
-- them. A nil slice is the empty list: the code only counts and ranges over it.
use mini_kafka.Prelude.{ℕ, zero, suc, ◌≤◌, List, [], ◌∷◌, length, All, arith}
use mini_kafka.Prelude.Int.{ℤ, pos, negsuc}
use mini_kafka.Protocol.Stream.{Reader, Writer, pure, ◌>>=◌, ◌>>◌, skip}
use mini_kafka.Protocol.Trips.{Trips, Trips-seq, Trips-skip, Trips-last}
use mini_kafka.Protocol.Codec.{
  put_array_header, array_header, read_array_header, max_int32, safety_limit,
}
use mini_kafka.Protocol.Codec.RoundTrip.{Trips-array_header, Trips-read_array_header}

module _ {A : Type 0} where
  unfoldable pub put_all : (A → Writer) → List A → Writer
  put_all put [] = skip
  put_all put (x ∷ xs) = put x >> put_all put xs

  -- PutArrayHeader(w, len(xs)) and the loop over xs.
  unfoldable pub put_array : (A → Writer) → List A → Writer
  put_array put xs = do put_array_header (pos (length xs)); put_all put xs

  unfoldable pub read_n : Reader A → ℕ → Reader (List A)
  read_n get zero = pure []
  read_n get (suc n) = do x ← get; xs ← read_n get n; pure (x ∷ xs)

  -- A negative count is a null array.
  elements : Reader A → ℤ → Reader (List A)
  elements get (negsuc k) = pure []
  elements get (pos n) = read_n get n

  -- ArrayHeader, or ReadArrayHeader for the requests, and the loop that fills the slice.
  pub read_array : Reader A → Reader (List A)
  unfolding elements
  read_array get = do count ← array_header; elements get count

  pub read_capped_array : Reader A → Reader (List A)
  unfolding elements
  read_capped_array get = do count ← read_array_header; elements get count

  pub Trips-put_all :
      (put : A → Writer) (get : Reader A) (xs : List A)
      → All (λ x. Trips (put x) get x) xs
      → Trips (put_all put xs) (read_n get (length xs)) xs
  unfolding put_all read_n
  Trips-put_all put get [] h = Trips-skip []
  Trips-put_all put get (x ∷ xs) (t, ts) =
      Trips-seq _ x t (Trips-last (λ r. x ∷ r) xs (Trips-put_all put get xs ts))

  pub All-map : {P Q : A → Type 0} (f : (x : A) → P x → Q x) (xs : List A) → All P xs → All Q xs
  All-map f [] h = tt
  All-map f (x ∷ xs) (p, ps) = (f x p, All-map f xs ps)

  -- An array whose elements make the trip makes it too, if its header does.
  pub Trips-array :
      {P : A → Type 0} (put : A → Writer) (get : Reader A)
      → ((x : A) → P x → Trips (put x) get x)
      → (xs : List A) → length xs ≤ max_int32
      → All P xs
      → Trips (put_array put xs) (read_array get) xs
  unfolding put_array read_array
  Trips-array put get trip xs fits h =
      Trips-seq _ (pos (length xs)) (Trips-array_header _ (omega arith))
        (Trips-put_all put get xs (All-map trip xs h))

  pub Trips-capped_array :
      {P : A → Type 0} (put : A → Writer) (get : Reader A)
      → ((x : A) → P x → Trips (put x) get x)
      → (xs : List A) → length xs ≤ safety_limit
      → All P xs
      → Trips (put_array put xs) (read_capped_array get) xs
  unfolding put_array read_capped_array
  Trips-capped_array put get trip xs fits h =
      Trips-seq _ (pos (length xs)) (Trips-read_array_header _ (omega arith) (omega arith))
        (Trips-put_all put get xs (All-map trip xs h))
