-- ===== src/Spawn/Logged.antt =====
-- What the shell has made while it sets up a pipeline (c-shell/src/command.c): which files its descriptors
-- are of and what its processes do, in a log that only grows.
use c_shell.Base.{
  ℕ, ◌≡◌, refl, ap, sym, ◌∙◌, List, [], ◌∷◌, ◌++◌, append_assoc, append-nil, inl, inr, ◌⊎◌, Bytes,
}
use c_shell.Command.{OutputFile}
use c_shell.Spawn.{Role, Forked, Kernel, fork_child}

-- One of a list has the property.
unfoldable pub Some {ℓ} : {A : Type ℓ} → (A → Type 0) → List A → Type 0
Some P [] = ⊥
Some P (x ∷ xs) = P x ⊎ Some P xs

pub Some-append {ℓ} : {A : Type ℓ} (P : A → Type 0) (xs ys : List A) → Some P xs → Some P (xs ++ ys)
unfolding Some
Some-append P [] ys h = absurd h
Some-append P (x ∷ xs) ys (inl h) = inl h
Some-append P (x ∷ xs) ys (inr h) = inr (Some-append P xs ys h)

pub Some-last {ℓ} :
    {A : Type ℓ} (P : A → Type 0) (xs : List A) (y : A) → P y → Some P (xs ++ y ∷ [])
unfolding Some
Some-last P [] y h = inl h
Some-last P (x ∷ xs) y h = inr (Some-last P xs y h)

-- The descriptors are, one by one, those that were opened for the items.
unfoldable pub Names : {A : Type 0} → List (ℕ × A) → List ℕ → List A → Type 0
Names log [] [] = Unit
Names log (fd ∷ fds) [] = ⊥
Names log [] (a ∷ as_) = ⊥
Names log (fd ∷ fds) (a ∷ as_) = Some (λ e. (e.0 ≡ fd) × (e.1 ≡ a)) log × Names log fds as_

pub Names-append :
    {A : Type 0} (log more : List (ℕ × A)) (fds : List ℕ) (as_ : List A)
    → Names log fds as_
    → Names (log ++ more) fds as_
unfolding Names
Names-append log more [] [] h = tt
Names-append log more (fd ∷ fds) [] h = absurd h
Names-append log more [] (a ∷ as_) h = absurd h
Names-append log more (fd ∷ fds) (a ∷ as_) h =
    (Some-append _ log more h.0, Names-append log more fds as_ h.1)

abbrev pub Longer : {A : Type 0} → List A → List A → Type 0
Longer {A} xs ys = (more : List A) × (ys ≡ xs ++ more)

pub Longer-refl : {A : Type 0} (xs : List A) → Longer xs xs
Longer-refl xs = ([], sym (append-nil xs))

Longer-then : {A : Type 0} (xs ys zs : List A) → Longer xs ys → Longer ys zs → Longer xs zs
Longer-then xs ys zs (a, e) (b, f) = (a ++ b, f ∙ ap (λ l. l ++ b) e ∙ append_assoc xs a b)

-- The logs of files and processes have grown.
abbrev pub Grows : Kernel → Kernel → Type 0
Grows k k' = Longer k.inputs k'.inputs × Longer k.created k'.created × Longer k.forked k'.forked

pub Grows-same :
    (k k' : Kernel)
    → k'.inputs ≡ k.inputs
    → k'.created ≡ k.created
    → k'.forked ≡ k.forked
    → Grows k k'
Grows-same k k' e f g =
    rw (e, f, g) (Longer-refl k.inputs, Longer-refl k.created, Longer-refl k.forked)

pub Grows-then : (k k' k'' : Kernel) → Grows k k' → Grows k' k'' → Grows k k''
Grows-then k k' k'' a b = (
  Longer-then k.inputs k'.inputs k''.inputs a.0 b.0,
  Longer-then k.created k'.created k''.created a.1 b.1,
  Longer-then k.forked k'.forked k''.forked a.2 b.2,
)

pub Grows-fork : (dropped : List ℕ) (role : Role) (k : Kernel) → Grows k (fork_child dropped role k)
unfolding fork_child
Grows-fork dropped role k = (Longer-refl k.inputs, Longer-refl k.created, (_, refl))

-- What was made stays in the logs.
abbrev pub Runs : Kernel → (Forked → Type 0) → Type 0
Runs k P = Some P k.forked

pub Runs-grows : (k k' : Kernel) (P : Forked → Type 0) → Grows k k' → Runs k P → Runs k' P
Runs-grows k k' P (a, b, (new, e)) h = rw e (Some-append P k.forked new h)

pub inputs-grow :
    (k k' : Kernel) (fds : List ℕ) (files : List Bytes)
    → Grows k k'
    → Names k.inputs fds files
    → Names k'.inputs fds files
inputs-grow k k' fds files ((new, e), b, c) h = rw e (Names-append k.inputs new fds files h)

pub created-grow :
    (k k' : Kernel) (fds : List ℕ) (files : List OutputFile)
    → Grows k k'
    → Names k.created fds files
    → Names k'.created fds files
created-grow k k' fds files (a, (new, e), c) h = rw e (Names-append k.created new fds files h)

pub Some-Longer :
    {A : Type 0} (P : A → Type 0) (xs ys : List A) → Longer xs ys → Some P xs → Some P ys
Some-Longer P xs ys (new, e) h = rw e (Some-append P xs new h)
