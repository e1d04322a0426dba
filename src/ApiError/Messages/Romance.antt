-- ===== src/ApiError/Messages/Romance.antt =====
-- The texts of `localizedMessages` in apps/web/src/lib/api-error.ts: fr, it.
use go_check_ssl.Prelude.Text.{Text, codes}
use go_check_ssl.ApiError.Codes.{
  ApiErrorCode, invalid_credentials, registration_disabled, email_not_verified, invalid_token,
  token_expired, resource_exists, password_too_short, username_too_short, username_too_long,
  username_invalid_chars, invalid_request_body, missing_refresh_cookie, missing_bearer_token,
  invalid_access_token, missing_authenticated_user, admin_access_required, user_not_found,
  tenant_not_found, tenant_disabled, domain_not_found, endpoint_not_found, domain_already_exists,
  hostname_required, target_ip_invalid, port_out_of_range, name_required, invalid_endpoint_config,
  telegram_not_configured, frontend_assets_unavailable, no_selected_user, bad_request, unauthorized,
  forbidden, not_found, conflict, server_error,
}

unfoldable pub fr_messages : ApiErrorCode → Text
fr_messages invalid_credentials = codes "Nom d'utilisateur ou mot de passe incorrect."
fr_messages registration_disabled = codes "L'inscription est actuellement désactivée."
fr_messages email_not_verified = codes "L'adresse e-mail n'est pas encore vérifiée."
fr_messages invalid_token = codes "Le jeton est invalide."
fr_messages token_expired = codes "Le jeton a expiré."
fr_messages resource_exists = codes "La ressource existe déjà."
fr_messages password_too_short = codes "Le mot de passe doit contenir au moins 8 caractères."
fr_messages username_too_short = codes "Le nom d'utilisateur doit contenir au moins 3 caractères."
fr_messages username_too_long = codes "Le nom d'utilisateur doit contenir au plus 32 caractères."
fr_messages username_invalid_chars =
    codes
      "Le nom d'utilisateur ne peut contenir que des lettres, chiffres, points, tirets bas et tirets."
fr_messages invalid_request_body = codes "Le contenu de la requête est invalide."
fr_messages missing_refresh_cookie = codes "Le cookie de rafraîchissement est manquant."
fr_messages missing_bearer_token = codes "Le jeton d'accès est manquant."
fr_messages invalid_access_token = codes "Le jeton d'accès est invalide."
fr_messages missing_authenticated_user =
    codes "Votre session n'est plus valide. Veuillez vous reconnecter."
fr_messages admin_access_required = codes "Un accès administrateur est requis."
fr_messages user_not_found = codes "Utilisateur introuvable."
fr_messages tenant_not_found = codes "Locataire introuvable."
fr_messages tenant_disabled = codes "Ce locataire a été désactivé."
fr_messages domain_not_found = codes "Domaine introuvable."
fr_messages endpoint_not_found = codes "Point de notification introuvable."
fr_messages domain_already_exists = codes "Ce domaine existe déjà."
fr_messages hostname_required = codes "Le nom d'hôte est requis."
fr_messages target_ip_invalid = codes "L’IP cible doit être une adresse IPv4 ou IPv6 valide."
fr_messages port_out_of_range = codes "Le port doit être compris entre 1 et 65535."
fr_messages name_required = codes "Le nom est requis."
fr_messages invalid_endpoint_config =
    codes "La configuration du point de notification est invalide."
fr_messages telegram_not_configured = codes "Le jeton du bot Telegram n'est pas configuré."
fr_messages frontend_assets_unavailable = codes "Les ressources front-end ne sont pas disponibles."
fr_messages no_selected_user = codes "Sélectionnez d'abord un utilisateur."
fr_messages bad_request = codes "La requête est invalide."
fr_messages unauthorized = codes "Vous n'êtes pas autorisé à effectuer cette action."
fr_messages forbidden = codes "Vous n'avez pas l'autorisation d'effectuer cette action."
fr_messages not_found = codes "La ressource demandée est introuvable."
fr_messages conflict = codes "La requête entre en conflit avec une ressource existante."
fr_messages server_error = codes "Le serveur n'a pas pu traiter la requête."

unfoldable pub it_messages : ApiErrorCode → Text
it_messages invalid_credentials = codes "Nome utente o password errati."
it_messages registration_disabled = codes "La registrazione è attualmente disabilitata."
it_messages email_not_verified = codes "La verifica Email è ancora in sospeso."
it_messages invalid_token = codes "Il token non è valido."
it_messages token_expired = codes "Il token è scaduto."
it_messages resource_exists = codes "La risorsa esiste già."
it_messages password_too_short = codes "La password deve contenere almeno 8 caratteri."
it_messages username_too_short = codes "Il nome utente deve contenere almeno 3 caratteri."
it_messages username_too_long = codes "Il nome utente deve contenere al massimo 32 caratteri."
it_messages username_invalid_chars =
    codes "Il nome utente può contenere solo lettere, numeri, punti, trattini bassi e trattini."
it_messages invalid_request_body = codes "Il corpo della richiesta non è valido."
it_messages missing_refresh_cookie = codes "Manca il cookie di aggiornamento."
it_messages missing_bearer_token = codes "Manca il token di accesso."
it_messages invalid_access_token = codes "Il token di accesso non è valido."
it_messages missing_authenticated_user =
    codes "La tua sessione non è più valida. Per favore accedi di nuovo."
it_messages admin_access_required = codes "È richiesto l'accesso amministrativo."
it_messages user_not_found = codes "Impossibile trovare l'utente."
it_messages tenant_not_found = codes "Non è stato possibile trovare l'inquilino."
it_messages tenant_disabled = codes "Questo inquilino è stato disabilitato."
it_messages domain_not_found = codes "Impossibile trovare il dominio."
it_messages endpoint_not_found = codes "Impossibile trovare l'endpoint di notifica."
it_messages domain_already_exists = codes "Questo dominio esiste già."
it_messages hostname_required = codes "Il nome host è obbligatorio."
it_messages target_ip_invalid = codes "L'IP bloccato deve essere un indirizzo IPv4 o IPv6 valido."
it_messages port_out_of_range = codes "La porta deve essere compresa tra 1 e 65535."
it_messages name_required = codes "Il nome è obbligatorio."
it_messages invalid_endpoint_config =
    codes "La configurazione dell'endpoint di notifica non è valida."
it_messages telegram_not_configured = codes "Il token bot Telegram non è configurato."
it_messages frontend_assets_unavailable = codes "Le risorse Frontend non sono disponibili."
it_messages no_selected_user = codes "Seleziona prima un utente."
it_messages bad_request = codes "La richiesta non è valida."
it_messages unauthorized = codes "Non sei autorizzato per questa azione."
it_messages forbidden = codes "Non hai l'autorizzazione per questa azione."
it_messages not_found = codes "Impossibile trovare la risorsa richiesta."
it_messages conflict = codes "La richiesta è in conflitto con una risorsa esistente."
it_messages server_error = codes "Il server non è riuscito a elaborare la richiesta."
