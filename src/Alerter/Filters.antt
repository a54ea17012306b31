-- ===== src/Alerter/Filters.antt =====
-- Which events a sink takes, said on the lists of its filters.
use gitops_dashboard.Prelude.{
  ◌≡◌, ◌≢◌, refl, arith, ◌⊎◌, true, false, not, ◌&&◌, List, [], ◌∷◌, inl, inr, Bool-cases, Elem,
  is_nil, or_cases, or_true, true_or,
}
use gitops_dashboard.Prelude.Text.{Text, text_eq, text_eq→eq, text_eq_refl, text_elem}
use gitops_dashboard.Alerts.Types.{AlertEvent}
use gitops_dashboard.Alerter.Routing.{SinkFilters, string_in_list, matches}

-- A value that is not empty stands in a list.
abbrev pub Named : List Text → Text → Type 0
Named list value = (value ≢ []) × Elem value list

-- No exclude list names the event, and each include list is empty or names it.
pub record Accepts (f : SinkFilters) (event : AlertEvent) : Type 0 where
  pub service_kept : ¬ Named f.exclude.services event.service_id
  pub target_kept : ¬ Named f.exclude.targets event.target
  pub service_in : (f.include.services ≡ []) ⊎ Named f.include.services event.service_id
  pub target_in : (f.include.targets ≡ []) ⊎ Named f.include.targets event.target

text_elem-Elem : (value : Text) (list : List Text) → text_elem value list ≡ true → Elem value list
unfolding text_elem
text_elem-Elem value [] h = let bad : false ≡ true = h in cc
text_elem-Elem value (x ∷ list) h = elim (or_cases (text_eq value x) _ h) [
  | inl same ↦ inl (text_eq→eq value x same)
  | inr later ↦ inr (text_elem-Elem value list later)
]

Elem-text_elem : (value : Text) (list : List Text) → Elem value list → text_elem value list ≡ true
unfolding text_elem
Elem-text_elem value [] m = elim m [ ]
Elem-text_elem value (x ∷ list) (inl same) = true_or (text_eq value x) _ (rw same (text_eq_refl x))
Elem-text_elem value (x ∷ list) (inr later) =
    or_true (text_eq value x) _ (Elem-text_elem value list later)

string_in_list-Named :
    (list : List Text) (value : Text) → string_in_list list value ≡ true → Named list value
unfolding string_in_list
string_in_list-Named list [] h = let bad : false ≡ true = h in cc
string_in_list-Named list (c ∷ value) h = (λ e. cc, text_elem-Elem (c ∷ value) list h)

Named-string_in_list :
    (list : List Text) (value : Text) → Named list value → string_in_list list value ≡ true
unfolding string_in_list
Named-string_in_list list [] named = absurd (named.0 refl)
Named-string_in_list list (c ∷ value) named = Elem-text_elem (c ∷ value) list named.1

turned_away :
    (list : List Text) (value : Text) → string_in_list list value ≡ false → ¬ Named list value
turned_away list value h named = cc (h, Named-string_in_list list value named)

no_mention :
    (list : List Text) (value : Text) → ¬ Named list value → string_in_list list value ≡ false
no_mention list value out = elim (Bool-cases (string_in_list list value)) [
  | inl e ↦ absurd (out (string_in_list-Named list value e))
  | inr e ↦ e
]

-- An include list that does not turn a value away.
included :
    (list : List Text) (value : Text)
    → not (is_nil list) && not (string_in_list list value) ≡ false
    → (list ≡ []) ⊎ Named list value
included [] value h = inl refl
included (x ∷ list) value h = elim (Bool-cases (string_in_list (x ∷ list) value)) [
  | inl e ↦ inr (string_in_list-Named (x ∷ list) value e)
  | inr e ↦ let bad : true ≡ false = rw e at h in cc
]

kept_in :
    (list : List Text) (value : Text)
    → (list ≡ []) ⊎ Named list value
    → not (is_nil list) && not (string_in_list list value) ≡ false
kept_in list value (inl none_listed) = rw none_listed refl
kept_in list value (inr named) = rw (Named-string_in_list list value named) (ground arith)

pub matches-Accepts :
    (f : SinkFilters) (event : AlertEvent) → matches f event ≡ true → Accepts f event
unfolding matches
matches-Accepts f event h = elim (Bool-cases (string_in_list f.exclude.services event.service_id)) [
  | inl e ↦ let bad : false ≡ true = rw e at h in cc
  | inr service ↦ elim (Bool-cases (string_in_list f.exclude.targets event.target)) [
    | inl e ↦ let bad : false ≡ true = rw (service, e) at h in cc
    | inr target ↦
        elim (Bool-cases (
          not (is_nil f.include.services)
          && not (string_in_list f.include.services event.service_id))) [
            | inl e ↦ let bad : false ≡ true = rw (service, target, e) at h in cc
            | inr services ↦
                elim (Bool-cases (
                  not (is_nil f.include.targets)
                  && not (string_in_list f.include.targets event.target))) [
                    | inl e ↦ let bad : false ≡ true = rw (service, target, services, e) at h in cc
                    | inr targets ↦ record {
                      service_kept = turned_away f.exclude.services event.service_id service;
                      target_kept = turned_away f.exclude.targets event.target target;
                      service_in = included f.include.services event.service_id services;
                      target_in = included f.include.targets event.target targets;
                    }
                  ]
          ]
  ]
]

pub Accepts-matches :
    (f : SinkFilters) (event : AlertEvent) → Accepts f event → matches f event ≡ true
unfolding matches
Accepts-matches f event a =
    rw
      (
        no_mention f.exclude.services event.service_id a.service_kept,
        no_mention f.exclude.targets event.target a.target_kept,
        kept_in f.include.services event.service_id a.service_in,
        kept_in f.include.targets event.target a.target_in,
      )
      refl
