-- ===== src/TextEditor/Keys.antt =====
-- What a sequence of keys does to the document.
use communicate_between_proc.Prelude.{
  ℕ, zero, suc, ◌≡◌, ◌≢◌, ◌∙◌, refl, ap, Bool, true, false, not, ◌&&◌, ◌||◌, List, [], ◌∷◌, ◌++◌,
  length, replicate, arith, ◌==◌,
}
use communicate_between_proc.TextEditor.{
  TextEditor, delete, backspace, escape, pop_back, process_key,
}

-- The keys one after another.
unfoldable pub process_keys : List ℕ → TextEditor → TextEditor
process_keys [] e = e
process_keys (k ∷ ks) e = process_keys ks (process_key k e)

-- Keys that are added to the document.
abbrev pub Typed : List ℕ → Type 0
Typed [] = Unit
Typed (k ∷ ks) = (k ≢ delete) × (k ≢ backspace) × (k ≢ escape) × Typed ks

pop_back-append : (xs : List ℕ) (k : ℕ) → pop_back (xs ++ (k ∷ [])) ≡ xs
pop_back-append [] k = refl
pop_back-append (x ∷ []) k = refl
pop_back-append (x ∷ y ∷ ys) k = ap (λ t. x ∷ t) (pop_back-append (y ∷ ys) k)

last_key :
    (n k : ℕ) (e : TextEditor)
    → process_keys (replicate (suc n) k) e ≡ process_key k (process_keys (replicate n k) e)
unfolding process_keys
last_key zero k e = refl
last_key (suc n) k e = last_key n k (process_key k e)

delete_typed :
    (k : ℕ) (e : TextEditor)
    → e.edit_mode ≡ true
    → k ≢ delete
    → k ≢ backspace
    → k ≢ escape
    → (process_key delete (process_key k e) ≡ e) × ((process_key k e).edit_mode ≡ true)
unfolding process_key
delete_typed k e m d b x = (ground (arith, pop_back-append e.document k), ground arith)

-- In edit mode, typing a text without control keys and then deleting as often as it has characters
-- leaves the editor as it was.
pub delete-type :
    (text : List ℕ) (e : TextEditor)
    → e.edit_mode ≡ true
    → Typed text
    → process_keys (replicate (length text) delete) (process_keys text e) ≡ e
unfolding process_keys
delete-type [] e m t = refl
delete-type (k ∷ ks) e m (d, b, x, t) =
    let (restored, editing) = delete_typed k e m d b x in
    last_key (length ks) delete (process_keys ks (process_key k e))
    ∙ ap (process_key delete) (delete-type ks (process_key k e) editing t)
    ∙ restored

abbrev pub has_q : List ℕ → Bool
has_q [] = false
has_q (k ∷ ks) = k == b'q' || has_q ks

abbrev pub NoEdit : List ℕ → Type 0
NoEdit [] = Unit
NoEdit (k ∷ ks) = (k ≢ b'e') × NoEdit ks

view-process_key :
    (k : ℕ) (e : TextEditor)
    → e.edit_mode ≡ false
    → k ≢ b'e'
    → process_key k e ≡ record e { keep_running = not (k == b'q') && e.keep_running }
unfolding process_key
view-process_key k e m h = ground arith

both : (a b r : Bool) → (not b && (not a && r)) ≡ (not (a || b) && r)
both a b r = ground arith

-- In view mode, keys without `e` change nothing but that the editor stops once `q` was among them.
pub view-process_keys :
    (keys : List ℕ) (e : TextEditor)
    → e.edit_mode ≡ false
    → NoEdit keys
    → process_keys keys e ≡ record e { keep_running = not (has_q keys) && e.keep_running }
unfolding process_keys process_key
view-process_keys [] e m n = refl
view-process_keys (k ∷ ks) e m (h, n) =
    ap (process_keys ks) (view-process_key k e m h)
    ∙ view-process_keys ks (record e { keep_running = not (k == b'q') && e.keep_running }) m n
    ∙ ap (λ b. record e { keep_running = b }) (both (k == b'q') (has_q ks) e.keep_running)
