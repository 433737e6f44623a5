-- ===== src/Events/EventTypes/Parsed.antt =====
-- The names of the event types of shared/src/event_api/types.rs, written and read.
use tv.Prelude.{◌≡◌, ◌≢◌, refl, sym, ◌↔◌, ◌⊎◌, inl, inr, Option, some, none, ap, ◌∙◌}
use tv.Prelude.HashMap.{get}
use tv.Prelude.Results.{ok, ok_or}
use tv.Prelude.Text.{Str, str_eq}
use tv.Events.Codes.Roundtrip.{WritesKeys, get-writes}
use tv.Events.EventTypes.{EventType, event_type_as_str, event_type_arms, event_type_from_str}

event_type_read :
    (t : EventType)
    → (get event_type_arms (event_type_as_str t) ≡ some t) ⊎ (t ≡ EventType.user_presence)
event_type_read EventType.any_system = inl refl
event_type_read EventType.system_announcement = inl refl
event_type_read EventType.any_emote = inl refl
event_type_read EventType.create_emote = inl refl
event_type_read EventType.update_emote = inl refl
event_type_read EventType.delete_emote = inl refl
event_type_read EventType.any_emote_set = inl refl
event_type_read EventType.create_emote_set = inl refl
event_type_read EventType.update_emote_set = inl refl
event_type_read EventType.delete_emote_set = inl refl
event_type_read EventType.any_user = inl refl
event_type_read EventType.create_user = inl refl
event_type_read EventType.update_user = inl refl
event_type_read EventType.delete_user = inl refl
event_type_read EventType.any_entitlement = inl refl
event_type_read EventType.create_entitlement = inl refl
event_type_read EventType.update_entitlement = inl refl
event_type_read EventType.delete_entitlement = inl refl
event_type_read EventType.reset_entitlement = inl refl
event_type_read EventType.any_cosmetic = inl refl
event_type_read EventType.create_cosmetic = inl refl
event_type_read EventType.update_cosmetic = inl refl
event_type_read EventType.delete_cosmetic = inl refl
event_type_read EventType.whisper = inl refl
event_type_read EventType.user_presence = inr refl

event_type_arms-written : WritesKeys event_type_as_str event_type_arms
event_type_arms-written = (
  refl,
  (
    refl,
    (
      refl,
      (
        refl,
        (
          refl,
          (
            refl,
            (
              refl,
              (
                refl,
                (
                  refl,
                  (
                    refl,
                    (
                      refl,
                      (
                        refl,
                        (
                          refl,
                          (
                            refl,
                            (
                              refl,
                              (
                                refl,
                                (refl, (refl, (refl, (refl, (refl, (refl, (refl, (refl, tt)))))))),
                              ),
                            ),
                          ),
                        ),
                      ),
                    ),
                  ),
                ),
              ),
            ),
          ),
        ),
      ),
    ),
  ),
)

found_iff : {A : Type 0} (o : Option A) (t : A) → (ok_or o (tt {0}) ≡ ok t) ↔ (o ≡ some t)
found_iff none t = ((λ h. absurd cc), (λ h. absurd cc))
found_iff (some w) t = ((λ h. cc), (λ h. cc))

event_type_read-none : get event_type_arms (event_type_as_str EventType.user_presence) ≡ none
event_type_read-none = refl

-- A string is read as a type exactly if it is the name of the type and the type is not
-- `UserPresence`, whose name is written and never read.
pub event_type_from_str_iff :
    (s : Str) (t : EventType)
    → (event_type_from_str s ≡ ok t) ↔ ((s ≡ event_type_as_str t) × (t ≢ EventType.user_presence))
unfolding event_type_from_str
event_type_from_str_iff s t = (
  (λ h.
      let found = (found_iff (get event_type_arms s) t).0 h in
      let written =
        get-writes event_type_as_str event_type_arms s t event_type_arms-written found in
      (
        written,
        λ presence.
            let clash : none ≡ some t =
              sym event_type_read-none
              ∙ ap (λ x. get event_type_arms (event_type_as_str x)) (sym presence)
              ∙ ap (get event_type_arms) (sym written)
              ∙ found in
            cc,
      )),
  (λ (written, other). elim (event_type_read t) [
    | inl read ↦ (found_iff (get event_type_arms s) t).1 (ap (get event_type_arms) written ∙ read)
    | inr presence ↦ absurd (other presence)
  ]),
)
