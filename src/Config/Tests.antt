-- ===== src/Config/Tests.antt =====
-- The derived parameters at the default configuration, and the bus with two observers.
use usrp_atsc.Common.{◌≡◌, refl, arith, leb, [], ◌∷◌, some}
use usrp_atsc.Config.{empty_config}
use usrp_atsc.Config.Derived.{IsConsistent, config-IsConsistent, get_default_config}
use usrp_atsc.Config.Bus.{ConfigBus, new_bus, register_observer, unregister_observer, publish}
use usrp_atsc.Config.Bus.Places.{has, remove}
use usrp_atsc.Config.Bus.Laws.{
  Represents, registered, publish-order, register_observer-refines, unregister_observer-refines,
}

config-IsConsistent_example : IsConsistent get_default_config
config-IsConsistent_example = config-IsConsistent get_default_config

abbrev two_observers : ConfigBus
two_observers = (register_observer (register_observer new_bus (some 5)).0 (some 7)).0

two_observers-Represents : Represents two_observers (5 ∷ 7 ∷ [])
unfolding register_observer new_bus
two_observers-Represents = record { places = refl; counted = refl; bounded = omega arith }

published_in_order :
    ((publish two_observers empty_config).1 ≡ 5 ∷ 7 ∷ [])
    × ((publish two_observers empty_config).0.current_config ≡ empty_config)
    × Represents (publish two_observers empty_config).0 (5 ∷ 7 ∷ [])
published_in_order = publish-order two_observers (5 ∷ 7 ∷ []) empty_config two_observers-Represents

unregister_observer-refines_example :
    Represents (unregister_observer two_observers (some 5)) (remove (5 ∷ 7 ∷ []) 5)
unregister_observer-refines_example =
    unregister_observer-refines two_observers (5 ∷ 7 ∷ []) 5 two_observers-Represents

register_observer-refines_example :
    Represents
      (register_observer two_observers (some 9)).0
      (registered (5 ∷ 7 ∷ []) 9 (has (5 ∷ 7 ∷ []) 9) (leb 16 2)).0
    × ((register_observer two_observers (some 9)).1
        ≡ (registered (5 ∷ 7 ∷ []) 9 (has (5 ∷ 7 ∷ []) 9) (leb 16 2)).1)
register_observer-refines_example =
    register_observer-refines two_observers (5 ∷ 7 ∷ []) 9 two_observers-Represents
