-- ===== src/Client/Cards/Ours.antt =====
-- client/alsa.c: the program only works with cards of the vendor, of products that it supports.
use fcp_support.Base.{
  arith, ℕ, ◌%◌, ◌^◌, List, [], ◌∷◌, Bool-cases, Option, none, some, ◌≡◌, ◌≢◌, ◌==◌, ==_iff, All,
  inl, inr,
}
use fcp_support.Base.Options.{OfFound, OfFound-bind, OfFound-Anything, Anything}
use fcp_support.Client.{SoundCard}
use fcp_support.Client.Versions.{get_supported_device_by_pid, vendor_vid}
use fcp_support.Client.Cards.{
  AlsaCard, of_vendor, of_usbid, scanned, get_usb_id, get_socket_path, supported, add_card, added,
  enum_cards,
}

pub record IsOurs (c : SoundCard) : Type 0 where
  pub vendor : c.usb_vid ≡ vendor_vid
  pub product : get_supported_device_by_pid (c.usb_pid % 2 ^ 16) ≢ 0
  pub served : c.socket_path ≢ none

abbrev OfVendor : ℕ × ℕ → Type 0
OfVendor (vid, pid) = vid ≡ vendor_vid

abbrev Supported : ℕ × ℕ → Type 0
Supported (vid, pid) = (vid ≡ vendor_vid) × (get_supported_device_by_pid (pid % 2 ^ 16) ≢ 0)

of_vendor-OfVendor : (o : Option (ℕ × ℕ)) → OfFound OfVendor (of_vendor o)
of_vendor-OfVendor none = tt
of_vendor-OfVendor (some (vid, pid)) = elim (Bool-cases (vid == vendor_vid)) [
  | inl same ↦ rw same ((==_iff _ _).0 same)
  | inr other ↦ rw other tt
]

supported-Supported : (o : Option (ℕ × ℕ)) → OfFound OfVendor o → OfFound Supported (supported o)
supported-Supported none h = tt
supported-Supported (some (vid, pid)) h =
    elim (Bool-cases (get_supported_device_by_pid (pid % 2 ^ 16) == 0)) [
      | inl missing ↦ rw missing tt
      | inr there ↦ rw there (h, λ e. absurd grind arith)
    ]

added-All :
    (o : Option SoundCard) (cs : List SoundCard)
    → OfFound IsOurs o
    → All IsOurs cs
    → All IsOurs (added o cs)
added-All none cs h k = k
added-All (some c) cs h k = (h, k)

module _ (scan : List ℕ → Option (ℕ × ℕ)) where
  of_usbid-OfVendor : (o : Option (List ℕ)) → OfFound OfVendor (of_usbid scan o)
  of_usbid-OfVendor none = tt
  of_usbid-OfVendor (some bytes) = of_vendor-OfVendor (scanned scan bytes)

  add_card-IsOurs : (a : AlsaCard) → OfFound IsOurs (add_card scan a)
  unfolding add_card get_usb_id
  add_card-IsOurs a =
      OfFound-bind Supported IsOurs (supported (of_usbid scan a.usbid)) _
        (supported-Supported _ (of_usbid-OfVendor a.usbid))
        (λ ids h. OfFound-bind Anything IsOurs a.device_serial _ (OfFound-Anything _) (λ serial t.
          OfFound-bind Anything IsOurs a.control _ (OfFound-Anything _) (λ ctl t.
            OfFound-bind Anything IsOurs (get_socket_path ctl) _ (OfFound-Anything _)
              (λ path t. record { vendor = h.0; product = h.1; served = λ e. absurd cc }))))

  pub enum_cards-IsOurs : (cards : List AlsaCard) → All IsOurs (enum_cards scan cards)
  unfolding enum_cards
  enum_cards-IsOurs [] = tt
  enum_cards-IsOurs (a ∷ rest) =
      added-All (add_card scan a) _ (add_card-IsOurs a) (enum_cards-IsOurs rest)
