-- ===== src/Echomixer/Opening/Endings.antt =====
-- How the scan of OpenControls ends: what is known of its result, or why there is none.
use dreamscape.Echomixer.Opening.{Ending, done, refused, exited, overrun, and_then}

-- Of an ended computation: what is known of a result, and why there is none.
abbrev pub Ends : {A : Type 0} → (A → Type 0) → (R X O : Type 0) → Ending A → Type 0
Ends P R X O (done x) = P x
Ends P R X O refused = R
Ends P R X O exited = X
Ends P R X O overrun = O

pub and_then-Ends :
    {A B : Type 0} {P : A → Type 0} (Q : B → Type 0) (R X O : Type 0) (x : Ending A)
    (f : A → Ending B)
    → Ends P R X O x
    → ((y : A) → P y → Ends Q R X O (f y))
    → Ends Q R X O (and_then x f)
and_then-Ends Q R X O (done y) f ended next = next y ended
and_then-Ends Q R X O refused f ended next = ended
and_then-Ends Q R X O exited f ended next = ended
and_then-Ends Q R X O overrun f ended next = ended

pub convert :
    {A : Type 0} {P : A → Type 0} {R X O : Type 0} (Q : A → Type 0) (R' X' O' : Type 0)
    (x : Ending A)
    → Ends P R X O x
    → ((y : A) → P y → Q y)
    → (R → R')
    → (X → X')
    → (O → O')
    → Ends Q R' X' O' x
convert Q R' X' O' (done y) ended result refusal exit behind = result y ended
convert Q R' X' O' refused ended result refusal exit behind = refusal ended
convert Q R' X' O' exited ended result refusal exit behind = exit ended
convert Q R' X' O' overrun ended result refusal exit behind = behind ended

-- A result has the property; nothing is said of the other endings.
abbrev pub Gives : {A : Type 0} → (A → Type 0) → Ending A → Type 0
Gives P x = Ends P (Unit {0}) (Unit {0}) (Unit {0}) x

pub read-Gives :
    {A B : Type 0} (P : B → Type 0) (x : Ending A) (f : A → B)
    → ((y : A) → P (f y))
    → Gives P (and_then x (λ y. done (f y)))
read-Gives P (done y) f gives = gives y
read-Gives P refused f gives = _
read-Gives P exited f gives = _
read-Gives P overrun f gives = _

pub both :
    {A : Type 0} (P : A → Type 0) (R X O : Type 0) (Q : A → Type 0) (x : Ending A)
    → Ends P R X O x
    → Gives Q x
    → Ends (λ y. P y × Q y) R X O x
both P R X O Q (done y) ended gives = (ended, gives)
both P R X O Q refused ended gives = ended
both P R X O Q exited ended gives = ended
both P R X O Q overrun ended gives = ended
