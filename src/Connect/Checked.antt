-- ===== src/Connect/Checked.antt =====
-- What a pass of src/lib/session-health.ts has to check and to find, and what its steps keep of that.
use mathlib.Core.Option.{none-ne-some}
use r_shell.Prelude.{
  Bool, Bool-cases, List, Memᴰ, Option, String, [], ap, both_hold, eq_iff, false, impossible, inl,
  inr, map, none, not, refl, some, some_inj, subst, sym, true, ◌&&◌, ◌++◌, ◌==◌, ◌||◌, ◌↔◌, ◌∙◌,
  ◌∷◌, ◌≡◌, ◌⊎◌,
}
use r_shell.Connect.Health.{
  HealthCheckedTab, Pass, SessionHealth, answered_pass, is_connected, is_ssh_terminal_tab,
  is_unhealthy,
}
use r_shell.Terminal.Types.{
  ConnectionStatus, TabType, connected, connecting, desktop, disconnected, editor, file_browser,
  pending, terminal,
}

-- A sublist of just the elements of a kind, in their order.
pub data Picks {A : Type 0} (P : A → Type 0) : List A → List A → Type 0 where
  nothing : Picks P [] []
  picked : {x : A} {xs ys : List A} → P x → Picks P xs ys → Picks P (x ∷ xs) (x ∷ ys)
  passed_by : {x : A} {xs ys : List A} → ¬ P x → Picks P xs ys → Picks P (x ∷ xs) ys

module _ {A : Type 0} {P : A → Type 0} where
  Picks-picked :
      {xs ys : List A} {x : A} → Picks P xs ys → P x → Picks P (xs ++ (x ∷ [])) (ys ++ (x ∷ []))
  Picks-picked nothing h = picked h nothing
  Picks-picked (picked k p) h = picked k (Picks-picked p h)
  Picks-picked (passed_by k p) h = passed_by k (Picks-picked p h)

  pub Picks-passed_by :
      {xs ys : List A} {x : A} → Picks P xs ys → ¬ P x → Picks P (xs ++ (x ∷ [])) ys
  Picks-passed_by nothing h = passed_by h nothing
  Picks-passed_by (picked k p) h = picked k (Picks-passed_by p h)
  Picks-passed_by (passed_by k p) h = passed_by k (Picks-passed_by p h)

map-snoc :
    {A B : Type 0} (f : A → B) (xs : List A) (x : A)
    → map f (xs ++ (x ∷ [])) ≡ map f xs ++ (f x ∷ [])
map-snoc f [] x = refl
map-snoc f (y ∷ ys) x = ap (λ zs. f y ∷ zs) (map-snoc f ys x)

-- A tab that is to be checked: a connected terminal, over SSH.
abbrev pub IsChecked : HealthCheckedTab → Type 0
IsChecked tab =
    ((tab.tab_type ≡ none) ⊎ (tab.tab_type ≡ some terminal))
    × ((tab.protocol ≡ none) ⊎ (tab.protocol ≡ some "SSH"))
    × (tab.connection_status ≡ connected)

-- An answer of a terminal that is lost: without its SSH connection, or without a terminal, attached or
-- detached.
abbrev pub IsLost : HealthCheckedTab × Option SessionHealth → Type 0
IsLost (tab, answer) =
    (h : SessionHealth) × (answer ≡ some h)
    × ((h.ssh_connected ≡ false) ⊎ ((h.has_pty ≡ false) × (h.detached ≡ false)))

abbrev pub fetched_tab : HealthCheckedTab × Option SessionHealth → HealthCheckedTab
fetched_tab e = e.0

abbrev pub fetched_id : HealthCheckedTab × Option SessionHealth → String
fetched_id e = e.0.id

-- The pass has come as far as behind `tabs`: it has fetched the checked ones of them, in their order, and
-- its unhealthy ids are those of the lost ones of these.
pub record IsPass (tabs : List HealthCheckedTab) (pass : Pass) : Type 0 where
  pub checked : Picks IsChecked tabs (map fetched_tab pass.fetched)
  pub lost : List (HealthCheckedTab × Option SessionHealth)
  pub found : Picks IsLost pass.fetched lost
  pub same : pass.unhealthy ≡ map fetched_id lost

type_checked :
    (o : Option TabType)
    → elim o [ none ↦ true | some terminal ↦ true | _ ↦ false ] ≡ true
      ↔ ((o ≡ none) ⊎ (o ≡ some terminal))
type_checked none = (λ h. inl refl, λ h. refl)
type_checked (some terminal) = (λ h. inr refl, λ h. refl)
type_checked (some file_browser) = (λ h. cc, λ h. elim h [ inl e ↦ cc | inr e ↦ cc ])
type_checked (some desktop) = (λ h. cc, λ h. elim h [ inl e ↦ cc | inr e ↦ cc ])
type_checked (some editor) = (λ h. cc, λ h. elim h [ inl e ↦ cc | inr e ↦ cc ])

protocol_checked :
    (o : Option String)
    → elim o [ none ↦ true | some p ↦ p == "SSH" ] ≡ true ↔ ((o ≡ none) ⊎ (o ≡ some "SSH"))
protocol_checked none = (λ h. inl refl, λ h. refl)
protocol_checked (some p) = (
  λ h. inr (ap some ((eq_iff p "SSH").0 h)),
  λ h. elim h [ inl e ↦ cc | inr e ↦ (eq_iff p "SSH").1 (some_inj e) ],
)

status_checked : (s : ConnectionStatus) → is_connected s ≡ true ↔ (s ≡ connected)
unfolding is_connected
status_checked connected = (λ h. refl, λ h. refl)
status_checked connecting = (λ h. cc, λ h. cc)
status_checked disconnected = (λ h. cc, λ h. cc)
status_checked pending = (λ h. cc, λ h. cc)

all_hold : {a b c : Bool} → a ≡ true → b ≡ true → c ≡ true → ((a && b) && c) ≡ true
all_hold h h' h'' = rw (h, h', h'') refl

unfoldable pub is_tab_checked : HealthCheckedTab → Bool
unfolding is_ssh_terminal_tab is_connected
is_tab_checked tab = is_ssh_terminal_tab tab && is_connected tab.connection_status

pub is_tab_checked-IsChecked : (tab : HealthCheckedTab) → is_tab_checked tab ≡ true ↔ IsChecked tab
unfolding is_tab_checked is_ssh_terminal_tab
is_tab_checked-IsChecked tab = (
  λ h.
      let both = both_hold (is_ssh_terminal_tab tab) _ h in
      let kinds = both_hold _ _ both.0 in
      (
        (type_checked tab.tab_type).0 kinds.0,
        (protocol_checked tab.protocol).0 kinds.1,
        (status_checked tab.connection_status).0 both.1,
      ),
  λ h.
      all_hold ((type_checked tab.tab_type).1 h.0) ((protocol_checked tab.protocol).1 h.1)
        ((status_checked tab.connection_status).1 h.2),
)

pub skipped : (a b : Bool) → (not a || not b) ≡ not (a && b)
skipped true b = refl
skipped false b = refl

unhealthy_cases :
    (ssh pty parked : Bool)
    → (not ssh || not pty && not parked) ≡ true
      ↔ ((ssh ≡ false) ⊎ ((pty ≡ false) × (parked ≡ false)))
unhealthy_cases false pty parked = (λ h. inl refl, λ h. refl)
unhealthy_cases true false false = (λ h. inr (refl, refl), λ h. refl)
unhealthy_cases true false true =
    (λ h. cc, λ h. elim h [ inl e ↦ cc | inr e ↦ impossible (sym e.1) ])
unhealthy_cases true true parked =
    (λ h. cc, λ h. elim h [ inl e ↦ cc | inr e ↦ impossible (sym e.0) ])

is_unhealthy-cases :
    (h : SessionHealth)
    → is_unhealthy h ≡ true
      ↔ ((h.ssh_connected ≡ false) ⊎ ((h.has_pty ≡ false) × (h.detached ≡ false)))
unfolding is_unhealthy
is_unhealthy-cases h = unhealthy_cases h.ssh_connected h.has_pty h.detached

pub append_nil : {A : Type 0} (xs : List A) → xs ++ [] ≡ xs
append_nil [] = refl
append_nil (x ∷ xs) = ap (λ ys. x ∷ ys) (append_nil xs)

pub snoc_append :
    {A : Type 0} (xs : List A) (x : A) (ys : List A) → xs ++ (x ∷ ys) ≡ (xs ++ (x ∷ [])) ++ ys
snoc_append [] x ys = refl
snoc_append (z ∷ zs) x ys = ap (λ us. z ∷ us) (snoc_append zs x ys)

pub last_or :
    {A : Type 0} (q : A) (xs : List A) (x : A) → Memᴰ q (xs ++ (x ∷ [])) → Memᴰ q xs ⊎ (q ≡ x)
last_or q [] x (Memᴰ.head e) = inr e
last_or q [] x (Memᴰ.tail m) = elim m [ ]
last_or q (y ∷ ys) x (Memᴰ.head e) = inl (Memᴰ.head e)
last_or q (y ∷ ys) x (Memᴰ.tail m) = elim (last_or q ys x m) [
  | inl t ↦ inl (Memᴰ.tail t)
  | inr e ↦ inr e
]

checked_behind :
    (before : List HealthCheckedTab) (tab : HealthCheckedTab) (answer : Option SessionHealth)
    (pass : Pass)
    → IsChecked tab
    → Picks IsChecked before (map fetched_tab pass.fetched)
    → Picks IsChecked
        (before ++ (tab ∷ []))
        (map fetched_tab (pass.fetched ++ ((tab, answer) ∷ [])))
checked_behind before tab answer pass k p =
    subst (Picks IsChecked (before ++ (tab ∷ [])))
      (sym (map-snoc fetched_tab pass.fetched (tab, answer))) (Picks-picked p k)

pub answered_pass-IsPass :
    (before : List HealthCheckedTab) (tab : HealthCheckedTab) (answer : Option SessionHealth)
    (pass : Pass)
    → IsChecked tab
    → IsPass before pass
    → IsPass (before ++ (tab ∷ [])) (answered_pass tab answer pass)
unfolding answered_pass
answered_pass-IsPass before tab none pass k p = record {
  checked = checked_behind before tab none pass k p.checked;
  lost = p.lost;
  found = Picks-passed_by p.found (λ h. none-ne-some h.0 h.1);
  same = p.same;
}
answered_pass-IsPass before tab (some h) pass k p = elim (Bool-cases (is_unhealthy h)) [
  | inl e ↦ rw e (record {
    checked = checked_behind before tab (some h) pass k p.checked;
    lost = p.lost ++ ((tab, some h) ∷ []);
    found = Picks-picked p.found (h, refl, (is_unhealthy-cases h).0 e);
    same = ap (λ ids. ids ++ (tab.id ∷ [])) p.same ∙ sym (map-snoc fetched_id p.lost (tab, some h));
  })
  | inr e ↦ rw e (record {
    checked = checked_behind before tab (some h) pass k p.checked;
    lost = p.lost;
    found = Picks-passed_by p.found (λ l. impossible (
        sym e
        ∙ (is_unhealthy-cases h).1 (
            subst
              (λ (x : SessionHealth).
                (x.ssh_connected ≡ false) ⊎ ((x.has_pty ≡ false) × (x.detached ≡ false)))
              (sym (some_inj l.1)) l.2)));
    same = p.same;
  })
]
