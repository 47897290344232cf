-- ===== src/Block/Filter/Entries.antt =====
-- `add_all_entries`: the probes of every hash are set, in whatever slot it waited.
use hybridmvcc.Base.{some-injective}
use hybridmvcc.Base.{
  set_elem, length-drop, length-take, map, get_elem?, ℕ, zero, suc, ◌-◌, ◌*◌, ◌/◌, ◌%◌, ◌^◌, ◌<◌,
  ◌≤◌, none, some, List, [], ◌∷◌, ◌==◌, ◌≡◌, inl, inr, refl, sym, ap, ◌∙◌, arith, Bool-cases, ◌>>=◌,
  length, take, drop,
}
use mathlib.Core.Path.{subst}
use native.Mathlib.Nat.{mul-le-mul_right}
use hybridmvcc.Block.Filter.{add_pending, add_rest, add_all_entries, hash_offset, prepare_hash}
use hybridmvcc.Base.{Assigned, set_elem_lem}
use hybridmvcc.Block.Filter.Probes.{Probes-Grows, Added, InRange, Set, add_hash_prepared_lem}

-- `P` holds of all elements, by their positions.
abbrev pub Every : {A : Type 0} → (A → Type 0) → List A → Type 0
Every {A} P xs = (j : ℕ) (x : A) → get_elem? xs j ≡ some x → P x

nothing_there : {A : Type 0} {B : Type 0} {x : A} → none ≡ some x → B
nothing_there e = absurd (cc e)

Every-nil : {A : Type 0} (P : A → Type 0) → Every P []
Every-nil P j x e = nothing_there e

Every-cons :
    {A : Type 0} (P : A → Type 0) (y : A) (ys : List A) → P y → Every P ys → Every P (y ∷ ys)
Every-cons P y ys p ps zero x e = subst P (some-injective e) p
Every-cons P y ys p ps (suc j) x e = ps j x e

pub get_elem?-map :
    {A B : Type 0} (f : A → B) (xs : List A) (j : ℕ) (x : A)
    → get_elem? xs j ≡ some x
    → get_elem? (map f xs) j ≡ some (f x)
get_elem?-map f [] j x e = nothing_there e
get_elem?-map f (y ∷ ys) zero x e = ap (λ z. some (f z)) (some-injective e)
get_elem?-map f (y ∷ ys) (suc j) x e = get_elem?-map f ys j x e

Every-map :
    {A B : Type 0} (f : A → B) (P : B → Type 0) (xs : List A)
    → Every P (map f xs)
    → Every (λ x. P (f x)) xs
Every-map f P xs ps j x e = ps j (f x) (get_elem?-map f xs j x e)

map-Every :
    {A B : Type 0} (f : A → B) (P : B → Type 0) (xs : List A)
    → ((x : A) → P (f x))
    → Every P (map f xs)
map-Every f P [] ps = Every-nil P
map-Every f P (y ∷ ys) ps = Every-cons P (f y) (map f ys) (ps y) (map-Every f P ys ps)

Every-take-drop :
    {A : Type 0} (P : A → Type 0) (n : ℕ) (xs : List A)
    → Every P (take n xs)
    → Every P (drop n xs)
    → Every P xs
Every-take-drop P zero xs front back = back
Every-take-drop P (suc n) [] front back = Every-nil P
Every-take-drop P (suc n) (y ∷ ys) front back =
    Every-cons P y ys (front 0 y refl) (Every-take-drop P n ys (λ j x. front (suc j) x) back)

-- An assignment, forward and back: the other elements are the same.
module _ {A : Type 0} (P : A → Type 0) {i : ℕ} {f : A → A} {xs : List A} (a : Assigned i f xs) where
  Every-after : P (f a.old) → Every P xs → Every P a.after
  Every-after p ps j x at = elim (Bool-cases (j == i)) [
    | inl same ↦
        let here : i ≡ j = ground (arith, same) in
        subst P (some-injective (sym a.is ∙ ap (λ k. get_elem? a.after k) here ∙ at)) p
    | inr other ↦ ps j x (sym (a.others j (λ here. absurd (ground (arith, other)))) ∙ at)
  ]

  Every-before : P a.old → Every P a.after → Every P xs
  Every-before p ps j x at = elim (Bool-cases (j == i)) [
    | inl same ↦
        let here : i ≡ j = ground (arith, same) in
        subst P (some-injective (sym a.was ∙ ap (λ k. get_elem? xs k) here ∙ at)) p
    | inr other ↦ ps j x (a.others j (λ here. absurd (ground (arith, other))) ∙ at)
  ]

pub length-map : {A B : Type 0} (f : A → B) (xs : List A) → length (map f xs) ≡ length xs
length-map f [] = refl
length-map f (x ∷ xs) = ap suc (length-map f xs)

-- With at least one line, the line of any hash lies in the filter.
pub hash_offset-InRange : (len h : ℕ) → 64 ≤ len → InRange len (hash_offset len h)
unfolding hash_offset prepare_hash
hash_offset-InRange len h room =
    let h1 = h % 2 ^ 32 in
    let lines = len % 2 ^ 32 / 64 in
    let small : h1 * lines ≤ (2 ^ 32 - 1) * lines = mul-le-mul_right lines (omega arith) in
    (omega arith, omega (arith, small, room))

module _ (probes : ℕ) where
  add_pending_lem :
      (pending : List (ℕ × ℕ)) (bytes : List ℕ)
      → Every (InRange (length bytes)) pending
      → Added (add_pending probes pending bytes) bytes (λ after. Every (Set probes after) pending)
  unfolding add_pending
  add_pending_lem [] bytes ranges = record {
    after = bytes;
    runs = refl;
    same_length = refl;
    grows = λ i bit set. set;
    holds = Every-nil (Set probes bytes);
  }
  add_pending_lem (e ∷ rest) bytes ranges =
      let first = add_hash_prepared_lem probes e bytes (ranges 0 e refl) in
      let later =
        add_pending_lem rest first.after (λ j x found.
          subst (λ n. InRange n x) (sym first.same_length) (ranges (suc j) x found)) in
      record {
        after = later.after;
        runs = ap (λ r. r >>= λ next. add_pending probes rest next) first.runs ∙ later.runs;
        same_length = later.same_length ∙ first.same_length;
        grows = λ i bit set. later.grows i bit (first.grows i bit set);
        holds =
            Every-cons (Set probes later.after) e rest
              (Probes-Grows probes e.0 e.1 first.after later.after later.grows first.holds)
              later.holds;
      }

  -- Eight slots wait, or no hash is left to take one.
  add_rest_lem :
      (len i : ℕ) (pending : List (ℕ × ℕ)) (rest bytes : List ℕ)
      → ((h : ℕ) → InRange (length bytes) (hash_offset len h))
      → (0 < length rest → length pending ≡ 8)
      → Every (InRange (length bytes)) pending
      → Added (add_rest probes len i pending rest bytes) bytes (λ after.
        Every (Set probes after) pending × Every (λ h. Set probes after (hash_offset len h)) rest)
  unfolding add_rest
  add_rest_lem len i pending [] bytes lines slots ranges =
      let added = add_pending_lem pending bytes ranges in
      record {
        after = added.after;
        runs = added.runs;
        same_length = added.same_length;
        grows = added.grows;
        holds = (added.holds, Every-nil (λ h. Set probes added.after (hash_offset len h)));
      }
  add_rest_lem len i pending (h ∷ rest) bytes lines slots ranges =
      let eight = slots (omega arith) in
      let next = hash_offset len h in
      let put = set_elem_lem (i % 8) (λ old. next) pending (omega (arith, eight)) in
      let e = put.old in
      let first = add_hash_prepared_lem probes e bytes (ranges (i % 8) e put.was) in
      let resize = λ (x : ℕ × ℕ) (r : InRange (length bytes) x).
        subst (λ n. InRange n x) (sym first.same_length) r in
      let later =
        add_rest_lem len (suc i) put.after rest first.after
          (λ h'. resize (hash_offset len h') (lines h')) (λ more. put.same_length ∙ eight)
          (λ j x at. resize x (Every-after (InRange (length bytes)) put (lines h) ranges j x at)) in
      record {
        after = later.after;
        runs = rw (put.was) (
            ap
              (λ r. r >>= λ bytes'. set_elem (i % 8) (λ old. next) pending >>= λ pending'.
                add_rest probes len (suc i) pending' rest bytes')
              first.runs
            ∙ ap (λ r. r >>= λ pending'. add_rest probes len (suc i) pending' rest first.after)
                put.runs
            ∙ later.runs);
        same_length = later.same_length ∙ first.same_length;
        grows = λ k bit set. later.grows k bit (first.grows k bit set);
        holds = (
          Every-before (Set probes later.after) put
              (Probes-Grows probes e.0 e.1 first.after later.after later.grows first.holds)
              later.holds.0,
          Every-cons (λ h'. Set probes later.after (hash_offset len h')) h rest
              (later.holds.0 (i % 8) next put.is) later.holds.1,
        );
      }

  pub add_all_entries_lem :
      (hashes bytes : List ℕ) (len : ℕ)
      → 64 ≤ len
      → len ≤ length bytes
      → Added
          (add_all_entries probes len hashes bytes)
          bytes
          (λ after. Every (λ h. Set probes after (hash_offset len h)) hashes)
  unfolding add_all_entries
  add_all_entries_lem hashes bytes len room fits =
      let lines = λ (h : ℕ).
        let r = hash_offset-InRange len h room in
        let r' : InRange (length bytes) (hash_offset len h) = (r.0, omega (arith, r.1, fits)) in
        r' in
      let added =
        add_rest_lem len 0 (map (hash_offset len) (take 8 hashes)) (drop 8 hashes) bytes lines
          (λ more. omega (
            arith,
            length-map (hash_offset len) (take 8 hashes),
            length-take 8 hashes,
            length-drop 8 hashes,
            more,
          ))
          (map-Every (hash_offset len) (InRange (length bytes)) (take 8 hashes) lines) in
      record {
        after = added.after;
        runs = added.runs;
        same_length = added.same_length;
        grows = added.grows;
        holds =
            Every-take-drop (λ h. Set probes added.after (hash_offset len h)) 8 hashes
              (Every-map (hash_offset len) (Set probes added.after) (take 8 hashes) added.holds.0)
              added.holds.1;
      }
