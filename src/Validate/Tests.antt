-- ===== src/Validate/Tests.antt =====
-- Addresses that Email accepts and refuses.
use auth_service.Prelude.{◌≡◌, ◌↔◌, refl, bytes}
use auth_service.Ports.{ok, err}
use auth_service.Validate.{nullable, derivative, matches, check_email}
use auth_service.Validate.Email.{IsAddress, check_email-IsAddress}

accepted : check_email (bytes "ann.lee+x@mail.example.org") ≡ ok tt
unfolding check_email matches derivative nullable
accepted = refl

short_last : check_email (bytes "ann@example.o") ≡ err "invalid email format"
unfolding check_email matches derivative nullable
short_last = refl

check_email-IsAddress_example :
    (check_email (bytes "ann.lee+x@mail.example.org") ≡ ok tt)
    ↔ IsAddress (bytes "ann.lee+x@mail.example.org")
check_email-IsAddress_example = check_email-IsAddress (bytes "ann.lee+x@mail.example.org")
