-- ===== src/Lib.antt =====
-- Verification of the paid access to the transport backend: how a subscription is bought, paid,
-- analysed, approved and rewarded, and who may work because of it; and of the trips of loads: the
-- requests of drivers and brokers, the packages of requests that brokers buy, trips and their
-- fares; of signing in, of the check of new accounts, and of the delivery of notices in the
-- messengers.
--
-- The program and its parts. A buyer orders a plan and sends the picture of a payment receipt
-- (SubscriptionOrderService, PaymentReceiptService). The receipt waits in a queue, a worker claims
-- it, a vision model reads it, and the values are compared with the order (ReceiptAnalysisWorker,
-- PaymentReceiptRepository). An admin approves or rejects it; an approval makes or finds the
-- buyer's account and adds the subscription (AccountProvisioningService). Drivers who bought a lot
-- get free days (SubscriptionRewardService). SubscriptionAccessService answers, for every other
-- part of the program, whether a user may work, by the policy that an admin sets
-- (SubscriptionPolicyService).
--
-- A transport company publishes a load (CargoListingService). Drivers and brokers ask for it, or
-- the company offers it to a driver; it accepts one request, with a fare, and the load is taken
-- until the trip is delivered or called off (CargoTripService, CargoRequestRepository,
-- TripFareService). A broker's requests are taken off the packages it buys, and it sees the loads
-- of the companies that it picks (BrokerAccessService). A company pays for the menus of its panel,
-- one by one or by tiers, each for a time (CompanyFeatureService).
--
-- Everyone signs in with a code sent to the phone and keeps one web session (RegistrationService,
-- SessionService, on keys of RedisService). An account that signs up on its own works once a parent
-- company has checked it (AccountVerificationService). The notice of a load goes through one of the
-- user's messengers, from queues that try again (CargoNotificationService, CargoDeliveryQueue).
--
-- Which file models what (paths from the root of the repository):
--   Entities/ - src/domain/entities/subscription, src/domain/enums/subscription.ts, and of
--     src/domain/entities/auth and agent/BotLink.ts the columns that these services use. Database
--     is the record of the tables.
--   Phones, Orders - src/services/subscription/subscriptionorder.service.ts (normalizePhone,
--     isValidIranMobile, buildOrder, createOrder, findOrderForTracking) and
--     src/infrastructure/repositories/subscription/subscriptionOrder.repository.ts.
--   Receipts/Matching, Submission, Analysis - src/services/subscription/paymentreceipt.service.ts
--     (cardMatches and nameMatches, submitReceipt, analyzeReceipt and processReceipt) and
--     receiptAnalysisWorker.service.ts (tick); Receipts/Queue -
--     src/infrastructure/repositories/subscription/paymentReceipt.repository.ts.
--   Provisioning/Buyer, Approval, Rejection - src/services/subscription/
--     accountprovisioning.service.ts (the account and role of a buyer, approveOrder,
--     rejectReceipt). approveOrder is check_approval (its steps 1 to 6) and finish_approval (7 to
--     18); approve_order is the two with nothing between, and the theorems on it are about an
--     approval that runs so.
--   Payments - all operations on payments as the steps of one relation, any interleaving of them as
--     a history, where an analysis and an approval are two steps each. Codes is about tracking
--     codes, Reopened about the second receipt of an order.
--   Policy - src/services/subscription/subscriptionPolicy.service.ts (normalize, normalizeRewards,
--     getStatus). Settings has the definitions, Json the values that they read, Stored what is
--     written.
--   Rewards - src/services/subscription/subscriptionReward.service.ts (grantEarned, paidTomans,
--     freeFrom, isDriver, activeUntil).
--   Access - src/services/subscription/subscriptionAccess.service.ts (check, driverTrialEndsAt) and
--     findActiveByUserId of
--     src/infrastructure/repositories/subscription/subscription.repository.ts.
--   Fares - src/services/notification/tripFare.service.ts (recordAgreed, recordDelivered, upsert)
--     with fareChanged of src/domain/helper/tripFare.ts: the fare of a trip when it is agreed and
--     when the load is delivered.
--   Limiter - src/services/notification/rateLimiter.ts (take, pause), on its own.
--   Features - src/services/company/companyFeature.service.ts: Access (standing, lockedFeatures,
--     openGrants, hasFeature), Orders (submitOrder and submitTierOrder, approveOrder and
--     rejectOrder of the menus, grant, addGrant); Chain, Granted and Approved are about the grants.
--   Brokers - src/services/company/brokerAccess.service.ts: Credits (remaining, useRequest,
--     refundRequest, grantRequests), Companies (currentSelection, visiblePublishers,
--     selectCompanies, addInvitingCompany, dropCompany), Orders (submitPackageOrder, approveOrder,
--     rejectOrder).
--   Trips - src/services/notification/cargoTrip.service.ts with
--     src/infrastructure/repositories/notification/cargoRequest.repository.ts: Store (the queries,
--     saveTrip, owned), Requests (request, cancel), Company (decide, which is accept and reject,
--     completeAssignment, which is start_trip, offer, respondOffer, expireOffers), Delivery
--     (deliver, settleBroker, cancelTrip, rejectDeliveryReport, remindDeliveries), and Listing with
--     setStatus and publishListing of src/services/notification/cargoListing.service.ts. It uses
--     Fares for the fare of a trip and Brokers for the packages and the loads that a broker sees.
--   Trips/History - all calls on trips as the steps of one relation: Moves the life of a request,
--     Sound the invariant, the files named for handlers what each keeps, Runs any sequence of
--     calls.
--   Auth - Keys: the keys of src/services/redis/redis.service.ts with their expiry; Codes and
--     Tokens: src/services/auth/registration.service.ts (withLock, requestOtp, the check of a code
--     in verifyOtp; issueTokens, signIn, refresh, revoke, adminSignIn); Sessions:
--     src/services/auth/session.service.ts; Accounts: the columns of User; Review:
--     reviewCode with normalizePhoneNumber of src/dto/auth/phone-number.ts. Pace, Opens, Replaced,
--     Lasts and Once are about histories of them.
--   Verification - src/services/company/accountVerification.service.ts: Profile (verifiedKind, the
--     required fields), NationalId (src/domain/helper/nationalId.ts), Requests (state, request,
--     approve, reject, isApproved, here request_check, approve_check and reject_check), Invites
--     (assertInvitable of inviteRules.ts, and what create of brokerInvite.service.ts and
--     createInvite of factory.service.ts, all of src/services/company, do with an account that has
--     the number); Moves is about histories, its Ways and Deeds with sign-ins and invites, Menus
--     about the menus of a checked company, with Features.
--   Notices - Retry: src/services/notification/cargoDeliveryRetry.ts; Queued: deliverQueued,
--     deliverBot and deliverWhatsapp of cargoNotification.service.ts; Jobs: handle and follow of
--     cargoDeliveryQueue.service.ts. Ends and Once are about the turns of a job and the sends of a
--     notice.
--   Base - the helpers that they share; Tests - runs on sample data.
-- A definition has the name of the source's function in snake case; a child module Laws, or one
-- named for its subject, has the theorems.
--
-- How the code is modelled. A uuid is a number, a time the number of milliseconds since 1970 (a
-- date before that is read as 0), an amount a number. A text is the list of its UTF-16 codes. A
-- table is the list of its rows; `save` of a row with a key that is there replaces it, else it is
-- added; an insert of a new bonus adds it at the end. A function that may throw gives a Result: err
-- with the exception or ok. A transaction takes the tables and gives the tables, and an exception
-- leaves them as they were. The ids of new rows and the readings of the clock are arguments. A day
-- has 24 hours. A column set to `undefined` keeps its stored value. Messages sent after a commit
-- are a list of effects. Sums of payments are counted in rials, ten to a toman, so that no tenth is
-- lost. A handler of trips writes without a transaction: its outcome has the tables after it also
-- where it throws, with what was written until then; it runs from start to end before the next. The
-- unique index of trips on CargoRequest is in save_trip. Percents are in hundredths. All services
-- that CargoTripService takes as optional are there. Exceptions with a Persian text have it in
-- English.
--
-- An approval locks the row of its order only, so the check of its tracking code and its writes are
-- two steps of a history; another order can be approved between them. Two orders may thus be paid
-- with one code: Tests/Race has that run. The operations on payments that are one step each run
-- alone; so do the checks of accounts, the tokens and the invites in their histories, which leave
-- out the two places that set an account back to NONE.
--
-- A key of Redis is a value with the moment when it ends, read as Redis documents its commands, on
-- the same clock as the program; one call of a service has one moment. The requests of one number
-- run one after another, as their lock has it. The run of a job is over the list of its turns;
-- after 10,837 turns it has ended, if the queue takes each next step: the retry window is three
-- hours, a job tried again waits a second at least, there are five messengers and at most four
-- throws for each.
--
-- Parameters, for code that is not in the repository: `analyze`, the vision model, any function;
-- `meanwhile`, what others write to the tables while the model works; `to_number` and `parse_date`,
-- `Number(…)` and `Date.parse`, of which only one fact is used, that a safe whole number is read as
-- itself. For trips: what the profile of a driver or the form of a broker gives, the border picked,
-- the roles of users, the policy of brokers and the fare as read (with the exception where it is
-- refused) are arguments. For signing in: the digest (HMAC), the SMS provider's answer,
-- whether a password is right, all random ids and what follows a right code; for checks the profiles; for notices what a messenger answers, whether the load is open and the user
-- linked, and what is held for a summary. The loops of the code are over lists; expireOffers counts
-- to its limit of a hundred rows.
--
-- Not modelled: the wording and translation of messages, logging, the sockets and push messages
-- beyond the list of effects, failures of the database, `updatedAt`, queries only for display, the
-- caches in front of the policy, and grantEarnedForAll. Fares are taken as read: the reading of
-- amounts and weights from text is left out. Of trips, the locations of drivers and the lists for
-- display are left out, of loads the announcement to drivers, of brokers setPolicy, invites and
-- settlements, of menus the plans and tiers that the admin edits. Of signing in, what follows a
-- right code (finding or making the account) is left out, of notices the summaries, the edits and
-- their texts. The bots, the assistant and the clients of other services are no part of this
-- library.
pub mod Base
pub mod Entities
pub mod Phones
pub mod Orders
pub mod Receipts
pub mod Provisioning
pub mod Payments
pub mod Policy
pub mod Rewards
pub mod Access
pub mod Fares
pub mod Limiter
pub mod Features
pub mod Brokers
pub mod Trips
pub mod Auth
pub mod Verification
pub mod Notices
mod Tests
