-- ===== src/Base/Store.antt =====
-- Maps with the numbers as keys, which the model takes for the tables and arrays that the code finds
-- by an address or an index.
use spy.Base.{ℕ, if◌then◌else◌, ◌==◌, ==_self, ==_ne, ◌≡◌, ◌≢◌, refl}

-- A map with the value at one key replaced.
unfoldable pub put {ℓ} : {A : Type ℓ} → (ℕ → A) → ℕ → A → ℕ → A
put f i v = λ j. if j == i then v else f j

pub put_same {ℓ} : {A : Type ℓ} → (f : ℕ → A) (i : ℕ) (v : A) → put f i v i ≡ v
unfolding put
put_same f i v = rw (==_self i) refl

pub put_other {ℓ} : {A : Type ℓ} → (f : ℕ → A) (i j : ℕ) (v : A) → j ≢ i → put f i v j ≡ f j
unfolding put
put_other f i j v ne = rw (==_ne j i ne) refl
